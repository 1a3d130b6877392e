-- ===== src/Search/Limit.antt =====
-- The limit on the results of each segment.
use attemory.Search.{
  SearchConfig, apply_search_result_limits, count_of, AttentionMemoryRef, limit_results,
}
use attemory.Base.Int.{◌≤ℤ◌, leb_ℤ, eqb_ℤ_iff, pos, eqb_ℤ, ℤ}
use attemory.Base.{
  ℕ, zero, suc, ◌+◌, ◌-◌, ◌≤◌, ◌<◌, ◌≡◌, refl, sym, ap, ◌∙◌, inl, inr, List, [], ◌∷◌, arith,
  if◌then◌else◌, Bool-cases, length,
}

-- The results of one segment, in order.
abbrev pub of_segment : ℤ → List AttentionMemoryRef → List AttentionMemoryRef
of_segment segment_id [] = []
of_segment segment_id (m ∷ ms) =
    if eqb_ℤ m.segment_id segment_id then m ∷ of_segment segment_id ms else of_segment segment_id ms

abbrev pub take {ℓ} : {A : Type ℓ} → ℕ → List A → List A
take zero xs = []
take (suc n) [] = []
take (suc n) (x ∷ xs) = x ∷ take n xs

take_all {ℓ} : {A : Type ℓ} (n : ℕ) (xs : List A) → length xs ≤ n → take n xs ≡ xs
take_all zero [] h = refl
take_all zero (x ∷ xs) h = absurd (omega arith)
take_all (suc n) [] h = refl
take_all (suc n) (x ∷ xs) h = ap (◌∷◌ x) (take_all n xs (omega arith))

take_nil : (n : ℕ) → take {A = AttentionMemoryRef} n [] ≡ []
take_nil zero = refl
take_nil (suc n) = refl

take_step {ℓ} :
    {A : Type ℓ} (k c : ℕ) (x : A) (xs : List A)
    → c < k
    → take (k - c) (x ∷ xs) ≡ x ∷ take (k - (c + 1)) xs
take_step k c x xs h = let e : k - c ≡ suc (k - (c + 1)) = omega arith in rw e

take_none {ℓ} : {A : Type ℓ} (k c : ℕ) (xs : List A) → k ≤ c → take (k - c) xs ≡ []
take_none k c xs h = let e : k - c ≡ 0 = omega arith in rw e

limit_results-take :
    (k : ℕ) (counts : List (ℤ × ℕ)) (ms : List AttentionMemoryRef) (s : ℤ)
    → 0 < k
    → of_segment s (limit_results (pos k) counts ms)
      ≡ take (k - count_of counts s) (of_segment s ms)
unfolding limit_results
limit_results-take k counts [] s h = sym (take_nil (k - count_of counts s))
limit_results-take k counts (m ∷ ms) s h =
    let c = count_of counts m.segment_id in
    elim (Bool-cases (eqb_ℤ m.segment_id s)) [
      | inl here ↦
          let e : m.segment_id ≡ s = (eqb_ℤ_iff m.segment_id s).0 here in
          let ec : c ≡ count_of counts s = ap (count_of counts) e in
          elim (Bool-cases (leb_ℤ (pos k) (pos c))) [
            | inl full ↦ ground (
              arith,
              limit_results-take k counts ms s h,
              take_none k (count_of counts s) (of_segment s ms),
              take_none k (count_of counts s) (m ∷ of_segment s ms),
            )
            | inr room ↦ ground (
              arith,
              limit_results-take k ((m.segment_id, c + 1) ∷ counts) ms s h,
              take_step k (count_of counts s) m (of_segment s ms),
            )
          ]
      | inr other ↦ ground (
        arith,
        limit_results-take k counts ms s h,
        limit_results-take k ((m.segment_id, c + 1) ∷ counts) ms s h,
      )
    ]

-- With a positive limit, `apply_search_result_limits` keeps of every segment exactly its first
-- `top_k` results, in their order.
pub apply_search_result_limits-take :
    (ordered : List AttentionMemoryRef) (config : SearchConfig) (k : ℕ)
    → config.top_k ≡ pos k
    → 0 < k
    → (segment_id : ℤ)
    → of_segment segment_id (apply_search_result_limits ordered config)
      ≡ take k (of_segment segment_id ordered)
unfolding apply_search_result_limits
apply_search_result_limits-take ordered config k e h segment_id =
    let zero_used : k - 0 ≡ k = omega arith in
    rw e (
      limit_results-take k [] ordered segment_id h
      ∙ ap (λ n. take n (of_segment segment_id ordered)) zero_used)

-- With a limit that is 0 or negative it keeps every result.
pub apply_search_result_limits_off :
    (ordered : List AttentionMemoryRef) (config : SearchConfig)
    → config.top_k ≤ℤ pos 0
    → apply_search_result_limits ordered config ≡ ordered
unfolding apply_search_result_limits
apply_search_result_limits_off ordered config h = go ordered
  where
    go : (ms : List AttentionMemoryRef) → limit_results config.top_k [] ms ≡ ms
    go [] = refl
    go (m ∷ ms) = ground (arith, go ms)
