-- ===== src/Chat/Turns/Results.antt =====
-- The results of tool calls in the prompt: none is lost, and none is written twice.
use helios_glm53flash.Prelude.{
  ℕ, zero, suc, ◌+◌, ◌≡◌, ◌≢◌, refl, sym, ap, subst, inl, inr, true, false, ◌&&◌, List, [], ◌∷◌,
  ◌++◌, Option, none, some, arith, length, get_elem?, length-append, codes, if◌then◌else◌,
  Bool-cases, Option-cases, All, same_words, same_words-eq, same_words_refl,
}
use helios_glm53flash.Chat.Parser.{ToolCall}
use helios_glm53flash.Chat.Turns.{
  ChatMsg, have_ids, called, all_match, results_of, ordered_results, order_of, block_results,
}

-- A message of a list.
abbrev pub In : ChatMsg → List ChatMsg → Type 0
In m msgs = (i : ℕ) × (get_elem? msgs i ≡ some m)

-- The calls that the message before the results makes.
abbrev pub calls_before : Option ChatMsg → List ToolCall
calls_before none = []
calls_before (some m) = m.tool_calls

-- No two calls have the same id.
abbrev pub DistinctCalls : List ToolCall → Type 0
DistinctCalls [] = Unit
DistinctCalls (tc ∷ calls) = All (λ c. c.id ≢ tc.id) calls × DistinctCalls calls

In-left : (m : ChatMsg) (us vs : List ChatMsg) → In m us → In m (us ++ vs)
In-left m [] vs (i, at) = absurd (cc at)
In-left m (u ∷ us) vs (zero, at) = (0, at)
In-left m (u ∷ us) vs (suc i, at) = let (j, there) = In-left m us vs (i, at) in (suc j, there)

In-right : (m : ChatMsg) (us vs : List ChatMsg) → In m vs → In m (us ++ vs)
In-right m [] vs h = h
In-right m (u ∷ us) vs h = let (j, there) = In-right m us vs h in (suc j, there)

results_of-In : (m : ChatMsg) (run : List ChatMsg) → In m run → In m (results_of m.tool_call_id run)
unfolding results_of
results_of-In m [] (i, at) = absurd (cc at)
results_of-In m (u ∷ run) (zero, at) =
    let e : u ≡ m = cc in
    let same : same_words u.tool_call_id m.tool_call_id ≡ true =
      rw e (same_words_refl m.tool_call_id) in
    rw same (0, at)
results_of-In m (u ∷ run) (suc i, at) =
    let (j, there) = results_of-In m run (i, at) in
    elim (Bool-cases (same_words u.tool_call_id m.tool_call_id)) [
      | inl same ↦ rw same (suc j, there)
      | inr other ↦ rw other (j, there)
    ]

ordered_results-In :
    (m : ChatMsg) (calls : List ToolCall) (run : List ChatMsg)
    → In m run
    → called m.tool_call_id calls ≡ true
    → In m (ordered_results calls run)
unfolding ordered_results called
ordered_results-In m [] run there = λ h. absurd (cc h)
ordered_results-In m (tc ∷ calls) run there = elim (Bool-cases (same_words tc.id m.tool_call_id)) [
  | inl same ↦ λ h.
      let e = same_words-eq tc.id m.tool_call_id same in
      rw e (
        In-left m (results_of m.tool_call_id run) (ordered_results calls run)
          (results_of-In m run there))
  | inr other ↦ rw other (λ h.
      In-right m (results_of tc.id run) (ordered_results calls run)
        (ordered_results-In m calls run there h))
]

all_match-called :
    (m : ChatMsg) (run : List ChatMsg) (calls : List ToolCall)
    → all_match run calls ≡ true
    → In m run
    → called m.tool_call_id calls ≡ true
unfolding all_match
all_match-called m [] calls h (i, at) = absurd (cc at)
all_match-called m (u ∷ run) calls h (zero, at) = let e : u ≡ m = cc in rw (sym e) (ground arith)
all_match-called m (u ∷ run) calls h (suc i, at) =
    all_match-called m run calls (ground arith) (i, at)

-- The number of calls with an id.
count_of : List ℕ → List ToolCall → ℕ
count_of id [] = 0
count_of id (tc ∷ calls) =
    let rest = count_of id calls in if same_words id tc.id then suc rest else rest

length-ordered_results :
    (calls : List ToolCall) (m : ChatMsg) (run : List ChatMsg)
    → length (ordered_results calls (m ∷ run))
      ≡ count_of m.tool_call_id calls + length (ordered_results calls run)
unfolding ordered_results results_of count_of
length-ordered_results [] m run = refl
length-ordered_results (tc ∷ calls) m run =
    let a = length-append (results_of tc.id run) (ordered_results calls run) in
    let b = length-append (results_of tc.id run) (ordered_results calls (m ∷ run)) in
    let rest = length-ordered_results calls m run in
    elim (Bool-cases (same_words m.tool_call_id tc.id)) [
      | inl same ↦ rw same (omega (arith, a, b, rest))
      | inr other ↦ rw other (omega (arith, a, b, rest))
    ]

no_results : (calls : List ToolCall) → length (ordered_results calls []) ≡ 0
unfolding ordered_results results_of
no_results [] = refl
no_results (tc ∷ calls) = no_results calls

count_absent :
    (id : List ℕ) (calls : List ToolCall) → All (λ c. c.id ≢ id) calls → count_of id calls ≡ 0
unfolding count_of
count_absent id [] h = refl
count_absent id (tc ∷ calls) (h, hs) = elim (Bool-cases (same_words id tc.id)) [
  | inl same ↦ absurd (h (sym (same_words-eq id tc.id same)))
  | inr other ↦ rw other (count_absent id calls hs)
]

count_once :
    (id : List ℕ) (calls : List ToolCall)
    → DistinctCalls calls
    → called id calls ≡ true
    → count_of id calls ≡ 1
unfolding count_of called
count_once id [] h = λ e. absurd (cc e)
count_once id (tc ∷ calls) (h, hs) = elim (Bool-cases (same_words id tc.id)) [
  | inl same ↦ λ e.
      let same_id = same_words-eq id tc.id same in
      rw same
        (ap suc (count_absent id calls (subst (λ k. All (λ c. c.id ≢ k) calls) (sym same_id) h)))
  | inr other ↦ λ e.
      let differ : same_words tc.id id ≡ false = different tc.id other in
      rw other (count_once id calls hs (rw differ at e))
]
  where
    different : (k : List ℕ) → same_words id k ≡ false → same_words k id ≡ false
    different k other = elim (Bool-cases (same_words k id)) [
      | inr differ ↦ differ
      | inl same ↦
          absurd (cc (other, ap (same_words id) (same_words-eq k id same), same_words_refl id))
    ]

length-ordered :
    (run : List ChatMsg) (calls : List ToolCall)
    → DistinctCalls calls
    → all_match run calls ≡ true
    → length (ordered_results calls run) ≡ length run
unfolding all_match
length-ordered [] calls h e = no_results calls
length-ordered (m ∷ run) calls h e =
    let here : called m.tool_call_id calls ≡ true = ground arith in
    let later : all_match run calls ≡ true = ground arith in
    omega (
      arith,
      length-ordered_results calls m run,
      count_once m.tool_call_id calls h here,
      length-ordered run calls h later,
    )

listed :
    (m : List ToolCall) (calls : List ToolCall)
    → (elim m [ [] ↦ none | ◌∷◌ tc cs ↦ some (tc ∷ cs) ]) ≡ some calls
    → calls ≡ m
listed [] calls h = absurd (cc h)
listed (tc ∷ cs) calls h = cc

pub order_of-some :
    (prev : Option ChatMsg) (run : List ChatMsg) (calls : List ToolCall)
    → order_of prev run ≡ some calls
    → (calls ≡ calls_before prev) × (all_match run calls ≡ true)
unfolding order_of
order_of-some none run calls = λ h. absurd (cc h)
order_of-some (some m) run calls =
    elim (Bool-cases
      (have_ids run && (same_words m.role (codes "assistant") && all_match run m.tool_calls))) [
        | inr no_order ↦ rw no_order (λ h. absurd (cc h))
        | inl order ↦ rw order (λ h.
            let e = listed m.tool_calls calls h in
            let matched : all_match run m.tool_calls ≡ true = ground arith in (e, rw e matched))
      ]

-- For calls with distinct ids before a run of results: every result of the run is in the block, and the
-- block has as many as the run, whether they are written in the order of the calls or as they come.
pub block_results-In :
    (prev : Option ChatMsg) (run : List ChatMsg)
    → DistinctCalls (calls_before prev)
    → (length (block_results prev run) ≡ length run)
      × ((m : ChatMsg) → In m run → In m (block_results prev run))
unfolding block_results
block_results-In prev run distinct = elim (Option-cases (order_of prev run)) [
  | inl as_they_come ↦
      let e : block_results prev run ≡ run = rw (block_results, as_they_come) refl in
      subst Kept (sym e) (refl, λ m there. there)
  | inr (calls, order) ↦
      let (named, matched) = order_of-some prev run calls order in
      let separate = subst DistinctCalls (sym named) distinct in
      let e : block_results prev run ≡ ordered_results calls run = rw (block_results, order) refl in
      subst Kept (sym e) (
        length-ordered run calls separate matched,
        λ m there.
            ordered_results-In m calls run there (all_match-called m run calls matched there),
      )
]
  where
    Kept : List ChatMsg → Type 0
    Kept out = (length out ≡ length run) × ((m : ChatMsg) → In m run → In m out)
