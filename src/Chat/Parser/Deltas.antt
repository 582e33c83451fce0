-- ===== src/Chat/Parser/Deltas.antt =====
-- A client that gathers the deltas has the parsed output.
use helios_glm53flash.Prelude.{
  ◌&&◌, not, ℕ, zero, suc, ◌+◌, ◌≡◌, refl, sym, ap, ◌∙◌, inl, inr, Bool, true, false, List, [], ◌∷◌,
  ◌++◌, none, length, take, drop, if◌then◌else◌, Bool-cases, Option-cases, same_words,
}
use mathlib.Core.List.{append-nil}
use helios_glm53flash.Chat.{think_end, tool_begin, tool_end}
use helios_glm53flash.Chat.Find.{find_tag, earliest_of}
use helios_glm53flash.Chat.Calls.{JsonLib}
use helios_glm53flash.Chat.Parser.{
  ParsedOutput, Delta, OutputParser, add_text, with_text, text_delta, stop_delta, ends_turn,
  pass_mark, drain_marks, call_delta, end_call, drain_from, drain, feed, end_open_call, finish,
}
use helios_glm53flash.Chat.Parser.Rounds.{put, limit_in, inside, outside, mark_read}
use helios_glm53flash.Chat.Parser.Flushed.{modes}

-- What a client adds to its output for a delta.
abbrev pub gather_one : Delta → ParsedOutput → ParsedOutput
gather_one d out = record {
  reasoning = out.reasoning ++ d.reasoning;
  content = out.content ++ d.content;
  tool_calls =
      if d.tool_begins
      then out.tool_calls
        ++ (record { id = d.tool_call_id; name = d.tool_name; arguments = d.tool_args_fragment }
            ∷ [])
      else out.tool_calls;
}

abbrev pub gather : List Delta → ParsedOutput → ParsedOutput
gather [] out = out
gather (d ∷ ds) out = gather ds (gather_one d out)

gather-append :
    (ds es : List Delta) (out : ParsedOutput) → gather (ds ++ es) out ≡ gather es (gather ds out)
gather-append [] es out = refl
gather-append (d ∷ ds) es out = gather-append ds es (gather_one d out)

blank_ends :
    (out : ParsedOutput)
    → record out { reasoning = out.reasoning ++ []; content = out.content ++ [] } ≡ out
blank_ends out =
    ap (λ r. record out { reasoning = r; content = out.content ++ [] }) (append-nil out.reasoning)
    ∙ ap (λ k. record out { content = k }) (append-nil out.content)

gather-text :
    (b : Bool) (text : List ℕ) (out : ParsedOutput)
    → with_text b text out ≡ gather (text_delta b text) out
unfolding with_text text_delta
gather-text true [] out = ap (λ r. record out { reasoning = r }) (append-nil out.reasoning)
gather-text false [] out = ap (λ r. record out { content = r }) (append-nil out.content)
gather-text true (c ∷ text) out =
    ap (λ k. record out { reasoning = out.reasoning ++ (c ∷ text); content = k })
      (sym (append-nil out.content))
gather-text false (c ∷ text) out =
    ap (λ k. record out { content = out.content ++ (c ∷ text); reasoning = k })
      (sym (append-nil out.reasoning))

gather-stop : (out : ParsedOutput) → gather (stop_delta ∷ []) out ≡ out
gather-stop out = blank_ends out

if-out :
    (b : Bool) (p q : OutputParser) (out : ParsedOutput)
    → p.out ≡ out
    → q.out ≡ out
    → (if b then p else q).out ≡ out
if-out true p q out h k = h
if-out false p q out h k = k

pass_mark-out : (which : List ℕ) (p : OutputParser) → (pass_mark which p).out ≡ p.out
unfolding pass_mark
pass_mark-out which p = if-out (same_words which think_end) _ _ p.out refl (
    if-out (same_words which tool_begin) _ _ p.out refl
      (if-out (ends_turn which) _ _ p.out refl refl))

module _ {J : Type 0} (lib : JsonLib J) where
  gather-call : (p : OutputParser) → (end_call lib p).out ≡ gather (call_delta lib p ∷ []) p.out
  unfolding end_call call_delta
  gather-call p = sym (blank_ends (end_call lib p).out)

  -- The output of a result is what its deltas add.
  abbrev Gathers : OutputParser → OutputParser × List Delta → Type 0
  Gathers p r = r.0.out ≡ gather r.1 p.out

  drain_from-Gathers :
      (fuel : ℕ) (flush : Bool) (b : List ℕ) (p : OutputParser)
      → Gathers p (drain_from lib fuel flush (put b p))
  unfolding drain_from
  drain_from-Gathers zero flush b p = refl
  drain_from-Gathers (suc fuel) flush [] p = refl
  drain_from-Gathers (suc fuel) flush (c ∷ s) p =
      modes (λ q. Gathers q (drain_from lib (suc fuel) flush (put (c ∷ s) q))) p
        (elim (Option-cases (find_tag tool_end (c ∷ s))) [
          | inl missing ↦ rw (drain_from, missing) refl
          | inr (e, found) ↦
              let q = record (inside lib (c ∷ s) p) {
                tool_body = p.tool_body ++ take e (c ∷ s);
                buf = drop (e + length tool_end) (c ∷ s);
              } in
              let next = end_call lib q in
              let rest = drain_from lib fuel flush next in
              rw (drain_from, found)
                (drain_from-Gathers fuel flush next.buf next ∙ ap (gather rest.1) (gather-call q))
        ])
        (elim (Option-cases (earliest_of (limit_in lib flush (c ∷ s)) (c ∷ s) drain_marks none)) [
          | inl missing ↦
              rw (drain_from, missing)
                (gather-text p.in_think (take (limit_in lib flush (c ∷ s)) (c ∷ s)) p.out)
          | inr (best, found) ↦
              let here = text_delta p.in_think (take best.0 (c ∷ s)) in
              let next = mark_read lib best (outside lib (c ∷ s) p) in
              let rest = drain_from lib fuel flush next in
              let text = gather-text p.in_think (take best.0 (c ∷ s)) p.out in
              let read =
                pass_mark-out best.1 (
                  put (drop (best.0 + length best.1) (c ∷ s))
                    (add_text (take best.0 (c ∷ s)) (outside lib (c ∷ s) p)))
                ∙ text in
              elim (Bool-cases (ends_turn best.1)) [
                | inl ends ↦
                    rw (drain_from, found, ends)
                      (read
                        ∙ sym (gather-stop (gather here p.out))
                        ∙ sym (gather-append here (stop_delta ∷ []) p.out))
                | inr goes ↦
                    rw (drain_from, found, goes)
                      (drain_from-Gathers fuel flush next.buf next
                        ∙ ap (gather rest.1) read
                        ∙ sym (gather-append here rest.1 p.out))
              ]
        ])

  end_open_call-Gathers : (p : OutputParser) → Gathers p (end_open_call lib p)
  unfolding end_open_call
  end_open_call-Gathers p = by_test (p.in_tool && not (same_words p.tool_body []))
    where
      by_test :
          (b : Bool)
          → Gathers p (elim b [ true ↦ (end_call lib p, call_delta lib p ∷ []) | false ↦ (p, []) ])
      by_test true = gather-call p
      by_test false = refl

  feed-Gathers : (piece : List ℕ) (p : OutputParser) → Gathers p (feed lib piece p)
  unfolding feed drain
  feed-Gathers piece p = by_test p.done
    where
      by_test :
          (b : Bool)
          → Gathers p (elim b [
            | true ↦ (p, [])
            | false ↦ drain lib false (record p { buf = p.buf ++ piece })
          ])
      by_test true = refl
      by_test false = drain_from-Gathers (length (p.buf ++ piece)) false (p.buf ++ piece) p

  finish-Gathers : (p : OutputParser) → Gathers p (finish lib p)
  unfolding finish drain
  finish-Gathers p =
      let drained = drain lib true p in
      let ended = end_open_call lib drained.0 in
      end_open_call-Gathers drained.0
      ∙ ap (gather ended.1) (drain_from-Gathers (length p.buf) true p.buf p)
      ∙ sym (gather-append drained.1 ended.1 p.out)

  -- In every state, what a client that adds up the deltas of `feed` and of `finish` has is the parsed output.
  pub feed-finish-gather :
      (piece : List ℕ) (p : OutputParser)
      → ((feed lib piece p).0.out ≡ gather (feed lib piece p).1 p.out)
        × ((finish lib p).0.out ≡ gather (finish lib p).1 p.out)
  feed-finish-gather piece p = (feed-Gathers piece p, finish-Gathers p)
