-- ===== src/Slots/Keys.antt =====
-- The key of an expert in the index of the slot manager.
use helios_glm53flash.Prelude.{ℕ, ◌+◌, ◌*◌, ◌^◌, ◌<◌, ◌≡◌, arith}
use helios_glm53flash.Slots.State.{key_of, wrap32}

-- Two experts whose layer and number are 32-bit words are the same if their keys are.
key_of-injective :
    (a b c d : ℕ)
    → a < 2 ^ 32
    → b < 2 ^ 32
    → c < 2 ^ 32
    → d < 2 ^ 32
    → key_of (a, b) ≡ key_of (c, d)
    → (a ≡ c) × (b ≡ d)
key_of-injective a b c d ha hb hc hd e =
    let ea : wrap32 a ≡ a = ground arith in
    let eb : wrap32 b ≡ b = ground arith in
    let ec : wrap32 c ≡ c = ground arith in
    let ed : wrap32 d ≡ d = ground arith in
    let flat : a * 2 ^ 32 + b ≡ c * 2 ^ 32 + d = rw (ea, eb, ec, ed) at e in
    (omega (arith, flat), omega (arith, flat))
