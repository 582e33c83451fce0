-- ===== src/Chat/Turns/Order.antt =====
-- The order of the results of tool calls in the prompt.
use helios_glm53flash.Prelude.{
  ℕ, zero, suc, ◌≡◌, ◌≢◌, ◌⊎◌, refl, sym, subst, ◌∙◌, inl, inr, true, false, ◌&&◌, List, [], ◌∷◌,
  ◌++◌, Option, none, some, arith, length, get_elem?, codes, Bool-cases, Option-cases, All,
  same_words, same_words-eq, same_words_refl,
}
use helios_glm53flash.Chat.Parser.{ToolCall}
use helios_glm53flash.Chat.Turns.{
  ChatMsg, have_ids, called, all_match, results_of, ordered_results, order_of, block_results,
}
use helios_glm53flash.Chat.Turns.Results.{
  In, calls_before, DistinctCalls, order_of-some, block_results-In,
}

-- Some call has this id.
abbrev pub Names : List ToolCall → List ℕ → Type 0
Names calls id = (i : ℕ) × (tc : ToolCall) × (get_elem? calls i ≡ some tc) × (tc.id ≡ id)

-- Every result has the id, not empty, of some call.
abbrev pub AllNamed : List ToolCall → List ChatMsg → Type 0
AllNamed calls run = All (λ m. (m.tool_call_id ≢ []) × Names calls m.tool_call_id) run

abbrev pub IsAssistant : Option ChatMsg → Type 0
IsAssistant none = ⊥
IsAssistant (some m) = m.role ≡ codes "assistant"

-- An assistant message stands before the run, and every result has the id of one of its calls.
abbrev pub Answered : Option ChatMsg → List ChatMsg → Type 0
Answered prev run = IsAssistant prev × AllNamed (calls_before prev) run

-- The results of a run with this id, as they come.
pub data Own (id : List ℕ) : List ChatMsg → List ChatMsg → Type 0 where
  nothing : Own id [] []
  mine :
      (m : ChatMsg) (run own : List ChatMsg)
      → m.tool_call_id ≡ id
      → Own id run own
      → Own id (m ∷ run) (m ∷ own)
  foreign :
      (m : ChatMsg) (run own : List ChatMsg)
      → m.tool_call_id ≢ id
      → Own id run own
      → Own id (m ∷ run) own

-- The results of each call, call after call.
pub data Grouped (run : List ChatMsg) : List ToolCall → List ChatMsg → Type 0 where
  nothing : Grouped run [] []
  call :
      (tc : ToolCall) (calls : List ToolCall) (own out : List ChatMsg)
      → Own tc.id run own
      → Grouped run calls out
      → Grouped run (tc ∷ calls) (own ++ out)

differ : (u v : List ℕ) → same_words u v ≡ false → u ≢ v
differ u v other e =
    let same : same_words u v ≡ true = rw e (same_words_refl v) in absurd (cc (same, other))

differ_test : (u v : List ℕ) → u ≢ v → same_words u v ≡ false
differ_test u v h = elim (Bool-cases (same_words u v)) [
  | inl same ↦ absurd (h (same_words-eq u v same))
  | inr other ↦ other
]

results_of-Own : (id : List ℕ) (run : List ChatMsg) → Own id run (results_of id run)
unfolding results_of
results_of-Own id [] = Own.nothing
results_of-Own id (m ∷ run) = elim (Bool-cases (same_words m.tool_call_id id)) [
  | inl same ↦ rw same (
      Own.mine m run (results_of id run) (same_words-eq m.tool_call_id id same)
        (results_of-Own id run))
  | inr other ↦ rw other (
      Own.foreign m run (results_of id run) (differ m.tool_call_id id other)
        (results_of-Own id run))
]

ordered_results-Grouped :
    (calls : List ToolCall) (run : List ChatMsg) → Grouped run calls (ordered_results calls run)
unfolding ordered_results
ordered_results-Grouped [] run = Grouped.nothing
ordered_results-Grouped (tc ∷ calls) run =
    Grouped.call tc calls (results_of tc.id run) (ordered_results calls run)
      (results_of-Own tc.id run) (ordered_results-Grouped calls run)

called-Names : (id : List ℕ) (calls : List ToolCall) → called id calls ≡ true → Names calls id
unfolding called
called-Names id [] = λ h. absurd (cc h)
called-Names id (tc ∷ calls) = elim (Bool-cases (same_words tc.id id)) [
  | inl same ↦ λ h. (0, tc, refl, same_words-eq tc.id id same)
  | inr other ↦ rw other (λ h. let (i, c, at, e) = called-Names id calls h in (suc i, c, at, e))
]

Names-called : (id : List ℕ) (calls : List ToolCall) → Names calls id → called id calls ≡ true
unfolding called
Names-called id [] (i, tc, at, e) = absurd (cc at)
Names-called id (c ∷ calls) (zero, tc, at, e) =
    let here : c ≡ tc = cc in
    let same : same_words c.id id ≡ true = rw (here, e) (same_words_refl id) in rw same refl
Names-called id (c ∷ calls) (suc i, tc, at, e) =
    let later = Names-called id calls (i, tc, at, e) in
    elim (Bool-cases (same_words c.id id)) [ inl same ↦ rw same refl | inr other ↦ rw other later ]

tests-All :
    (run : List ChatMsg) (calls : List ToolCall)
    → have_ids run ≡ true
    → all_match run calls ≡ true
    → AllNamed calls run
unfolding have_ids all_match
tests-All [] calls h k = tt
tests-All (m ∷ run) calls h k =
    let filled : same_words m.tool_call_id [] ≡ false = ground arith in
    (
      (differ m.tool_call_id [] filled, called-Names m.tool_call_id calls (ground arith)),
      tests-All run calls (ground arith) (ground arith),
    )

All-tests :
    (run : List ChatMsg) (calls : List ToolCall)
    → AllNamed calls run
    → (have_ids run ≡ true) × (all_match run calls ≡ true)
unfolding have_ids all_match
All-tests [] calls h = (refl, refl)
All-tests (m ∷ run) calls ((filled, named), hs) =
    let (ids, matched) = All-tests run calls hs in
    rw (differ_test m.tool_call_id [] filled, Names-called m.tool_call_id calls named, ids, matched)
      (refl, refl)

no_calls : (run : List ChatMsg) → AllNamed [] run → run ≡ []
no_calls [] h = refl
no_calls (m ∷ run) ((filled, (i, tc, at, e)), hs) = absurd (cc at)

-- A block in the order of the calls is grouped by them, and its results are answers.
order_of-Answered :
    (prev : Option ChatMsg) (run : List ChatMsg) (calls : List ToolCall)
    → order_of prev run ≡ some calls
    → Answered prev run
unfolding order_of
order_of-Answered none run calls = λ h. absurd (cc h)
order_of-Answered (some m) run calls =
    elim (Bool-cases
      (have_ids run && (same_words m.role (codes "assistant") && all_match run m.tool_calls))) [
        | inr no_order ↦ rw no_order (λ h. absurd (cc h))
        | inl order ↦ λ h.
            let role : same_words m.role (codes "assistant") ≡ true = ground arith in
            (
              same_words-eq m.role (codes "assistant") role,
              tests-All run m.tool_calls (ground arith) (ground arith),
            )
      ]

unlisted :
    (calls : List ToolCall)
    → ◌≡◌ {A = Option (List ToolCall)} (elim calls [ [] ↦ none | ◌∷◌ tc cs ↦ some (tc ∷ cs) ]) none
    → calls ≡ []
unlisted [] h = refl
unlisted (tc ∷ calls) h = absurd (cc h)

-- Without an order, a run of answers has no result.
unordered-nil :
    (prev : Option ChatMsg) (run : List ChatMsg)
    → order_of prev run ≡ none
    → Answered prev run
    → (run ≡ []) × (calls_before prev ≡ [])
unfolding order_of
unordered-nil none run h (role, named) = absurd role
unordered-nil (some m) run h (role, named) =
    let (ids, matched) = All-tests run m.tool_calls named in
    let assistant : same_words m.role (codes "assistant") ≡ true =
      rw role (same_words_refl (codes "assistant")) in
    let left = rw (ids, matched, assistant) at h in
    let none_called = unlisted m.tool_calls left in
    (no_calls run (subst (λ calls. AllNamed calls run) none_called named), none_called)

-- For calls with distinct ids before a run of tool results, the block has as many results as the run and
-- each result of the run. If an assistant message stands before the run and every result has the id, not
-- empty, of one of its calls, the block holds the results of each call, as they come, call after call;
-- otherwise it is the run as it comes.
pub block_results-Grouped :
    (prev : Option ChatMsg) (run : List ChatMsg)
    → DistinctCalls (calls_before prev)
    → (length (block_results prev run) ≡ length run)
      × ((m : ChatMsg) → In m run → In m (block_results prev run))
      × (Answered prev run → Grouped run (calls_before prev) (block_results prev run))
      × (¬ Answered prev run → block_results prev run ≡ run)
unfolding block_results
block_results-Grouped prev run distinct =
    let (size, all) = block_results-In prev run distinct in
    let (grouped, plain) = by_order (Option-cases (order_of prev run)) in
    (size, all, grouped, plain)
  where
    by_order :
        (order_of prev run ≡ none) ⊎ ((calls : List ToolCall) × (order_of prev run ≡ some calls))
        → (Answered prev run → Grouped run (calls_before prev) (block_results prev run))
          × (¬ Answered prev run → block_results prev run ≡ run)
    by_order (inl as_they_come) =
        let e : block_results prev run ≡ run = rw (block_results, as_they_come) refl in
        (
          λ h.
              let (no_run, no_call) = unordered-nil prev run as_they_come h in
              subst (Grouped run (calls_before prev)) (sym (e ∙ no_run))
                (subst (λ calls. Grouped run calls []) (sym no_call) Grouped.nothing),
          λ h. e,
        )
    by_order (inr (calls, order)) =
        let (named, matched) = order_of-some prev run calls order in
        let e : block_results prev run ≡ ordered_results calls run =
          rw (block_results, order) refl in
        (
          λ h. subst (Grouped run (calls_before prev)) (sym e) (
              subst (λ cs. Grouped run cs (ordered_results calls run)) named
                (ordered_results-Grouped calls run)),
          λ h. absurd (h (order_of-Answered prev run calls order)),
        )
