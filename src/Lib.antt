-- ===== src/Lib.antt =====
-- A verification library for helios, an inference server for one large mixture-of-experts model.
--
-- The program. The server (src/engine/server.cpp) turns a request into a prompt of tokens and calls
-- the runner (src/engine/runner.cpp). The runner keeps one resident session: the token history, the
-- cache planes addressed by position, and a recurrent state that cannot be addressed by position. A
-- request resumes at a position that the prefix policy (src/engine/prefix.hpp) chooses, runs the rest
-- of the prompt in chunks, and then draws token after token. In each mixture-of-experts layer the
-- runner asks the slot manager (src/engine/slotmgr.cpp) to make the chosen experts resident on the GPU.
--
-- The files.
--   Prelude: shared names, lists over the native numbers, and lemmas on them.
--   Prefix: all of src/engine/prefix.hpp. Prefix/Newest, Prefix/Resume and Prefix/Branch prove what the
--     scan, the plan and the discarding of a suffix do.
--   Forward: the forward pass (the CUDA kernels and layer_step), a parameter of which nothing is assumed:
--     a chunk may give other numbers when tokens are cut in another way, or another time. Run says what
--     some sequence of chunks over a history leaves.
--   Runner: Runner::reset, snap_capture, snap_restore, prefix_begin, run_chunk, prefill, decode and
--     generate, under those names. Coherent says that a session's planes, state and snapshots are what
--     one such run over its history left; Append, Begin, Prefill and Generate follow a request through it.
--   Slots: State, Evict, Acquire and Step hold SlotMgr's operations under the source's names, and the
--     slot part of Runner::moe_ffn (want, gather, load_experts). Index, Table, Picks, Taking, Update,
--     Invariant, Evicting, Finding, Filling, Wanting, Gather, Loading, Ending, Exhausted and Keys prove
--     that index, slots and memory agree and that a layer's experts are resident when its kernels run.
--   Images: image_prefix_limit and ImageEmbeddingCache of src/core/vision.cpp; Limit, Cache and Put
--     prove what the limit means and how the cache is kept.
--   Utf8: src/engine/utf8.hpp; Chars says what whole sequences are, by the ranges of their bytes,
--     Complete and Sanitize what the prefix and the mended string are.
--   Planes: Cache::plan and raw_ring_rows of src/engine/cache.cpp; Layout proves what they add up to.
--   Chat: the output parser of src/core/chat.cpp. Find holds the searches for tags, Calls the reading of
--     tool calls, Parser the class OutputParser; Holdback, Find/Extend and Find/Earliest are about what
--     is held back and found, Parser/Held to Parser/Stream about a text that comes in pieces, and
--     Parser/Deltas about what a client gathers.
--   Tokenizer: src/tokenizer/tokenizer.cpp. Symbols holds b2s, s2b and dec_cp, Classes the character
--     classes, Split pretokenize, Vocab the tables and load, Merge bpe_piece, Codec encode and decode.
--     Split/Partition, Merge/Steps, Codec/Longest, Codec/RoundTrip and Loaded prove what they do.
--   Chat/Json, Chat/Turns and Chat/Render: JSON values and render_chat of src/core/chat.cpp; Turns/Results
--     and Turns/Order are about the results of tool calls, Tokenizer/Template compares the two prompts.
--   Experts: expert_layout of src/core/expert_layout.cpp; Layout proves that its pieces do not overlap.
--   Server: Utf8Streamer and the token loops of src/engine/server.cpp, over the tokenizer and the output
--     parser; Server/Reading and Server/Request read a request. Server/Streamer composes them.
--
-- Numbers. Positions, counts and tokens are natural numbers; -1 is `none`. The slot clock and heat wrap
-- as 64-bit and 32-bit words, and theorems about recency ask that the clock is not about to wrap.
-- Loops over text have as much fuel as bytes, and each round passes one. The tables of Unicode letters
-- and numbers, the JSON library, std::sort and the shards' tensors are parameters.
-- Prefill has as much fuel as tokens, and each round takes one, so it never runs out. A program that
-- aborts or throws is an outer `none`.
--
-- Not modelled: device arithmetic, streams and events (a copy is in place when it is issued), floating
-- point and so the sampler (a parameter), images inside the runner (their reuse limit is an argument
-- there) and their encoder, the opt-in layer-major prefill, the ranking and the file of the census, the
-- pass of moe_ffn over experts that are missing after the loop, the HTTP library and the JSON of the
-- answers, model loading but for the layout of experts, and everything that prints.
pub mod Prelude
pub mod Prefix
pub mod Forward
pub mod Runner
pub mod Slots
pub mod Images
pub mod Utf8
pub mod Chat
pub mod Planes
pub mod Tokenizer
pub mod Server
pub mod Experts
