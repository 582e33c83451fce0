-- ===== src/Forward.antt =====
-- The model's forward pass as the runner calls it (layer_step and the CUDA kernels below it,
-- src/engine/runner.cpp): a parameter of which nothing is assumed. A chunk of tokens reads the recurrent
-- state of the KDA layers, the rows already in the position-addressed planes, and everything else on the
-- machine; its results may depend on how tokens are cut into chunks, and differ from one time to the next.
use helios_glm53flash.Prelude.{ℕ, zero, suc, ◌≤◌, ◌<◌, ◌≡◌, refl, ap, List, [], ◌∷◌, ◌++◌, length}

-- What a chunk leaves: the row at each of its offsets, and the last row of the hidden state with the logits
-- that final_head makes of it.
pub record Out (Rest Rec Row Hidden : Type 0) : Type 0 where
  pub rec : Rec
  pub row : ℕ → Row
  pub hidden : Hidden
  pub rest : Rest

pub record Forward : Type 1 where
  -- Whatever else a chunk reads and changes: the resident experts, buffers, the order of additions.
  pub Rest : Type 0
  pub Rec : Type 0
  pub Row : Type 0
  pub Hidden : Type 0
  -- The zeroed recurrent state.
  pub zeroed : Rec
  pub chunk : Rest → Rec → List Row → List ℕ → Out Rest Rec Row Hidden

-- The rows of a chunk of `n` tokens, from the position of its first token on.
unfoldable pub new_rows {ℓ} : {A : Type ℓ} → ℕ → (ℕ → A) → List A
new_rows zero row = []
new_rows (suc n) row = row 0 ∷ new_rows n (λ i. row (suc i))

pub length-new_rows {ℓ} : {A : Type ℓ} (n : ℕ) (row : ℕ → A) → length (new_rows n row) ≡ n
unfolding new_rows
length-new_rows zero row = refl
length-new_rows (suc n) row = ap suc (length-new_rows n (λ i. row (suc i)))

module _ (f : Forward) (limit : ℕ) where
  -- Some run over a history, from the zeroed state, in chunks of at least one and at most `limit`
  -- tokens, left this recurrent state and these rows.
  pub data Run : List ℕ → f.Rec → List f.Row → Type 0 where
    start : Run [] f.zeroed []
    next :
        {hist : List ℕ} {rec : f.Rec} {rows : List f.Row} (rest : f.Rest) (tokens : List ℕ)
        → Run hist rec rows
        → 0 < length tokens
        → length tokens ≤ limit
        → Run
            (hist ++ tokens)
            (f.chunk rest rec rows tokens).rec
            (rows ++ new_rows (length tokens) (f.chunk rest rec rows tokens).row)

  -- The hidden row is what the last chunk of such a run left.
  pub record Shows (hist : List ℕ) (hidden : f.Hidden) : Type 0 where
    pub before : List ℕ
    pub tokens : List ℕ
    pub rec : f.Rec
    pub rows : List f.Row
    pub rest : f.Rest
    pub run : Run before rec rows
    pub some_token : 0 < length tokens
    pub fits : length tokens ≤ limit
    pub whole : hist ≡ before ++ tokens
    pub left : hidden ≡ (f.chunk rest rec rows tokens).hidden
