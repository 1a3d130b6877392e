-- ===== src/Persistent/Replace/Outcomes.antt =====
-- What a replacement leaves on the disk.
use attemory.Base.Result.{err, ok, ResultStatus}
use attemory.Persistent.Replace.{replace_file, put_file, Files, Io, temp_path}
use attemory.Base.Text.{bytes_eq_self, Bytes, text, bytes_eq}
use attemory.Base.{
  ◌↔◌, ◌≡◌, refl, ◌≢◌, ◌⊎◌, inl, inr, true, false, none, some, [], ◌∷◌, ◌++◌, arith, Bool-cases,
  Option-cases,
}

longer : (path tail : Bytes) → bytes_eq path (path ++ b'.' ∷ tail) ≡ false
unfolding bytes_eq
longer [] tail = refl
longer (x ∷ path) tail = ground (arith, longer path tail)

temp_path_ne : (path : Bytes) → bytes_eq path (temp_path path) ≡ false
unfolding text
temp_path_ne path = longer path (text "tmp")

module _ (kind : Bytes) (io : Io) (files : Files) (path content : Bytes) where
  -- A file is as it was, or it was removed after a failed rename and the second one failed too.
  abbrev pub KeptOrLost : Files → Type 0
  KeptOrLost after =
      (after path ≡ files path)
      ⊎ ((io.removes ≡ true)
          × (io.rename_error ≢ none)
          × (io.retry_error ≢ none)
          × (after path ≡ none))

  abbrev pub Others : Files → Type 0
  Others after =
      (other : Bytes)
      → bytes_eq other path ≡ false
      → bytes_eq other (temp_path path) ≡ false
      → after other ≡ files other

  abbrev pub Outcome : ResultStatus × Files → Type 0
  Outcome r =
      (((r.0 ≡ ok tt) × (r.1 path ≡ some content))
        ⊎ (((e : Bytes) × (r.0 ≡ err e)) × KeptOrLost r.1))
      × Others r.1

  pub replace_file_lem : Outcome (replace_file kind io files path content)
  unfolding replace_file put_file
  replace_file_lem = elim (Bool-cases io.opens) [
    | inr e ↦ rw e (inr ((_, refl), inl refl), λ other a b. refl)
    | inl opened ↦ elim (Bool-cases io.writes) [
      | inr e ↦
          rw (opened, e)
            (inr ((_, refl), inl (ground (arith, temp_path_ne path))), λ other a b. ground arith)
      | inl wrote ↦ elim (Option-cases io.rename_error) [
        | inl e ↦
            rw (opened, wrote, e)
              (inl (refl, ground (arith, bytes_eq_self path)), λ other a b. ground arith)
        | inr (m, e) ↦ elim (Bool-cases io.removes) [
          | inl gone ↦ elim (Option-cases io.retry_error) [
            | inl again ↦
                rw (opened, wrote, e, gone, again)
                  (inl (refl, ground (arith, bytes_eq_self path)), λ other a b. ground arith)
            | inr (n, again) ↦
                rw (opened, wrote, e, gone, again)
                  (
                    inr (
                      (_, refl),
                      inr (
                        refl,
                        ground arith,
                        ground arith,
                        ground (arith, temp_path_ne path, bytes_eq_self path),
                      ),
                    ),
                    λ other a b. ground arith,
                  )
          ]
          | inr stays ↦ elim (Option-cases io.retry_error) [
            | inl again ↦
                rw (opened, wrote, e, stays, again)
                  (inl (refl, ground (arith, bytes_eq_self path)), λ other a b. ground arith)
            | inr (n, again) ↦
                rw (opened, wrote, e, stays, again)
                  (
                    inr ((_, refl), inl (ground (arith, temp_path_ne path))),
                    λ other a b. ground arith,
                  )
          ]
        ]
      ]
    ]
  ]

  -- Replacing a file either succeeds and the file has the new content; or it fails and the file is
  -- as it was, or was removed after a failed rename, the second rename failed too, and it is gone.
  pub replace_file-path :
      let r = replace_file kind io files path content in
      ((r.0 ≡ ok tt) × (r.1 path ≡ some content)) ⊎ (((e : Bytes) × (r.0 ≡ err e)) × KeptOrLost r.1)
  replace_file-path = replace_file_lem.0

  -- The temporary file is written, neither rename succeeds, and the old file is removed in between.
  abbrev pub Loses : Type 0
  Loses =
      (io.opens ≡ true)
      × (io.writes ≡ true)
      × (io.rename_error ≢ none)
      × (io.removes ≡ true)
      × (io.retry_error ≢ none)

  lost : Loses → (replace_file kind io files path content).1 path ≡ none
  unfolding replace_file put_file
  lost (opened, wrote, first, gone, second) = elim (Option-cases io.rename_error) [
    | inl e ↦ absurd (first e)
    | inr (m, e) ↦ elim (Option-cases io.retry_error) [
      | inl f ↦ absurd (second f)
      | inr (n, f) ↦
          rw (opened, wrote, e, gone, f) (ground (arith, temp_path_ne path, bytes_eq_self path))
    ]
  ]

  -- Before the removal every failure leaves the old file.
  loss-Loses :
      (old : Bytes)
      → files path ≡ some old
      → (replace_file kind io files path content).1 path ≡ none
      → (io.opens ≡ true) × (io.writes ≡ true)
  unfolding replace_file put_file
  loss-Loses old there h = elim (Bool-cases io.opens) [
    | inr e ↦ let kept : files path ≡ none = rw (replace_file, e) at h in absurd (cc)
    | inl e ↦ elim (Bool-cases io.writes) [
      | inr f ↦
          let kept : put_file files (temp_path path) io.leftover path ≡ none =
            rw (replace_file, e, f) at h in
          absurd (ground (arith, temp_path_ne path))
      | inl f ↦ (e, f)
    ]
  ]

  -- A replacement of a file that is there loses it, so that it fails and nothing stands under the
  -- path afterwards, exactly when the temporary file is written, both renames fail and the removal
  -- of the old file between them does not.
  pub replace_file_loses_iff :
      (old : Bytes)
      → files path ≡ some old
      → let r = replace_file kind io files path content in
        (((e : Bytes) × (r.0 ≡ err e)) × (r.1 path ≡ none)) ↔ Loses
  replace_file_loses_iff old there = (
    λ (failed, gone). elim replace_file-path [
      | inl (done, new) ↦ absurd (cc)
      | inr (_, kept) ↦ elim kept [
        | inl same ↦ absurd (cc)
        | inr (removed, first, second, gone') ↦
            let (opened, wrote) = loss-Loses old there gone in
            (opened, wrote, first, removed, second)
      ]
    ],
    λ loses. elim replace_file-path [
      | inl (done, new) ↦ let gone = lost loses in absurd (cc)
      | inr (failed, kept) ↦ (failed, lost loses)
    ],
  )
