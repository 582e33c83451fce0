-- ===== src/Chat/Holdback.antt =====
-- The hold-back is the longest end of the text that a marker could start with.
use helios_glm53flash.Prelude.{
  subst, ℕ, zero, suc, ◌+◌, ◌-◌, ◌≤◌, ◌<◌, ◌≡◌, ◌⊎◌, refl, sym, ap, ◌∙◌, inl, inr, true, min, max,
  List, [], ◌∷◌, some, arith, length, take, drop, get_elem?, Bool-cases, if◌then◌else◌,
  same_words-eq, same_words_refl,
}
use native.Mathlib.Decide.{ℕ_discrete}
use helios_glm53flash.Chat.{marks, could_start, longest_of, longest_among, holdback_len}

-- The last `len` bytes of the text are a beginning, and not all, of the marker.
pub record Begins (s m : List ℕ) (len : ℕ) : Type 0 where
  pub some_bytes : 0 < len
  pub proper : len < length m
  pub within : len ≤ length s
  pub same : drop (length s - len) s ≡ take len m

-- `best` was reached by a marker of the list, or before.
longest_of-le : (rounds len : ℕ) (s m : List ℕ) (best : ℕ) → best ≤ longest_of rounds len s m best
unfolding longest_of
longest_of-le zero len s m best = omega arith
longest_of-le (suc rounds) len s m best = elim (Bool-cases (could_start s m len)) [
  | inl here ↦ rw here (omega (arith, longest_of-le rounds (suc len) s m (max best len)))
  | inr not_here ↦ rw not_here (longest_of-le rounds (suc len) s m best)
]

longest_of-Begins :
    (rounds len : ℕ) (s m : List ℕ) (best : ℕ)
    → 0 < len
    → rounds + len ≤ length m
    → rounds + len ≤ length s + 1
    → (longest_of rounds len s m best ≡ best) ⊎ Begins s m (longest_of rounds len s m best)
unfolding longest_of
longest_of-Begins zero len s m best start small fits = inl refl
longest_of-Begins (suc rounds) len s m best start small fits =
    elim (Bool-cases (could_start s m len)) [
      | inr not_here ↦
          rw not_here
            (longest_of-Begins rounds (suc len) s m best (omega arith) (omega arith) (omega arith))
      | inl here ↦
          elim (longest_of-Begins rounds (suc len) s m (max best len) (omega arith) (omega arith)
            (omega arith)) [
              | inr begins ↦ rw here (inr begins)
              | inl stays ↦ elim (max_cases best len) [
                | inl old ↦ rw here (inl (stays ∙ old))
                | inr new ↦
                    rw (here, stays ∙ new)
                      (inr (record {
                        some_bytes = start;
                        proper = omega arith;
                        within = omega arith;
                        same = same_words-eq (drop (length s - len) s) (take len m) here;
                      }))
              ]
            ]
    ]
  where
    max_cases : (a b : ℕ) → (max a b ≡ a) ⊎ (max a b ≡ b)
    max_cases a b = ground arith

longest_of-ge :
    (rounds len : ℕ) (s m : List ℕ) (best k : ℕ)
    → len ≤ k
    → k < len + rounds
    → drop (length s - k) s ≡ take k m
    → k ≤ longest_of rounds len s m best
unfolding longest_of
longest_of-ge zero len s m best k low high same = absurd (omega arith)
longest_of-ge (suc rounds) len s m best k low high same = elim (ℕ_discrete k len) [
  | yes at ↦
      let words = ap (λ n. drop (length s - n) s) (sym at) ∙ same ∙ ap (λ n. take n m) at in
      let here : could_start s m len ≡ true = rw words (same_words_refl (take len m)) in
      rw here (omega (arith, at, longest_of-le rounds (suc len) s m (max best len)))
  | no later ↦
      longest_of-ge rounds (suc len) s m (if could_start s m len then max best len else best) k
        (omega arith) (omega arith) same
]

-- One marker, with the bounds of the loop.
abbrev of_marker : List ℕ → List ℕ → ℕ → ℕ
of_marker s m best = longest_of (min (length m - 1) (length s)) 1 s m best

of_marker-Begins :
    (s m : List ℕ) (best : ℕ) → (of_marker s m best ≡ best) ⊎ Begins s m (of_marker s m best)
unfolding longest_of
of_marker-Begins s [] best = inl (none_tried best)
  where
    none_tried : (best : ℕ) → longest_of (min (0 - 1) (length s)) 1 s [] best ≡ best
    none_tried best = let none_left : min (0 - 1) (length s) ≡ 0 = omega arith in rw none_left refl
of_marker-Begins s (b ∷ m) best =
    longest_of-Begins (min (length (b ∷ m) - 1) (length s)) 1 s (b ∷ m) best (omega arith)
      (omega arith) (omega arith)

among-le : (ms : List (List ℕ)) (s : List ℕ) (best : ℕ) → best ≤ longest_among ms s best
unfolding longest_among
among-le [] s best = omega arith
among-le (m ∷ ms) s best = omega (
  arith,
  longest_of-le (min (length m - 1) (length s)) 1 s m best,
  among-le ms s (of_marker s m best),
)

-- Some marker of the list begins at the end of the text, with that many bytes.
pub record Reached (ms : List (List ℕ)) (s : List ℕ) (len : ℕ) : Type 0 where
  pub index : ℕ
  pub marker : List ℕ
  pub listed : get_elem? ms index ≡ some marker
  pub begins : Begins s marker len

among-Reached :
    (ms : List (List ℕ)) (s : List ℕ) (best : ℕ)
    → (longest_among ms s best ≡ best) ⊎ Reached ms s (longest_among ms s best)
unfolding longest_among
among-Reached [] s best = inl refl
among-Reached (m ∷ ms) s best = elim (among-Reached ms s (of_marker s m best)) [
  | inr r ↦
      inr (record { index = suc r.index; marker = r.marker; listed = r.listed; begins = r.begins })
  | inl stays ↦ elim (of_marker-Begins s m best) [
    | inl old ↦ inl (stays ∙ old)
    | inr here ↦ inr (record {
      index = 0;
      marker = m;
      listed = refl;
      begins = subst (Begins s m) (sym stays) here;
    })
  ]
]

among-ge :
    (ms : List (List ℕ)) (s : List ℕ) (best k i : ℕ) (m : List ℕ)
    → get_elem? ms i ≡ some m
    → Begins s m k
    → k ≤ longest_among ms s best
unfolding longest_among
among-ge [] s best k i m e h = absurd (cc)
among-ge (x ∷ ms) s best k zero m e h =
    let one : x ≡ m = some_words x m e in
    let here =
      longest_of-ge (min (length m - 1) (length s)) 1 s m best k (omega (arith, h.some_bytes))
        (omega (arith, h.proper, h.within)) h.same in
    let there : k ≤ of_marker s x best = rw one here in
    omega (arith, there, among-le ms s (of_marker s x best))
  where
    some_words : (x m : List ℕ) → some x ≡ some m → x ≡ m
    some_words x m e = ground arith
among-ge (x ∷ ms) s best k (suc i) m e h = among-ge ms s (of_marker s x best) k i m e h

-- The hold-back is 0, or that many bytes at the end of the text begin a marker; and no end of the text
-- that begins a marker is longer.
pub holdback_len-Reached :
    (s : List ℕ)
    → ((holdback_len s ≡ 0) ⊎ Reached marks s (holdback_len s))
      × ((k i : ℕ) (m : List ℕ) → get_elem? marks i ≡ some m → Begins s m k → k ≤ holdback_len s)
unfolding holdback_len
holdback_len-Reached s = (among-Reached marks s 0, λ k i m e h. among-ge marks s 0 k i m e h)
