-- ===== src/Transport/Sse.antt =====
-- packages/transport/src/sse.ts: the decoder of a server-sent event stream, for chunks that are texts.
-- The JSON parser of a block's data is a parameter.
pub mod Chunks
pub mod Gateway
pub mod Blocks
pub mod Delivered
pub mod Requests
pub mod Send
pub mod Loop
mod Examples
use open_claw_bot.Common.{
  ℕ, zero, suc, ◌+◌, ◌++◌, Bool, true, false, not, ◌&&◌, Option, none, some, List, [], ◌∷◌, map,
  length, drop, keep, is_empty, if◌then◌else◌, nat_beq,
}
use open_claw_bot.Common.Texts.{Text, units, trim, starts_with}

abbrev pub starts_line : Text → Bool
starts_line [] = false
starts_line (c ∷ s) = nat_beq c 10

-- The text before the first blank line, and the text behind it.
unfoldable pub cut_block : Text → Option (Text × Text)
cut_block [] = none
cut_block (c ∷ s) =
    let later = cut_block s in
    if nat_beq c 10 && starts_line s
    then some ([], drop 1 s)
    else (elim later [ none ↦ none | some (block, rest) ↦ some (c ∷ block, rest) ])

-- What a block gives: nothing if it is blank or a comment.
unfoldable pub emit : Text → List Text
unfolding trim starts_with
emit block =
    if not (is_empty (trim block)) && not (starts_with (trim block) (units ":"))
    then trim block ∷ []
    else []

-- The loop of `push`: the blocks of a buffer, and what is left of it. There are fewer blocks than
-- characters.
unfoldable pub drain : ℕ → Text → List Text × Text
unfolding cut_block emit
drain zero buffer = ([], buffer)
drain (suc fuel) buffer = elim (cut_block buffer) [
  | none ↦ ([], buffer)
  | some (block, rest) ↦ let later = drain fuel rest in (emit block ++ later.0, later.1)
]

unfoldable pub push : Text → Text → List Text × Text
unfolding drain
push buffer chunk = drain (length (buffer ++ chunk)) (buffer ++ chunk)

-- A stream of chunks.
abbrev pub push_all : Text → List Text → List Text × Text
push_all buffer [] = ([], buffer)
push_all buffer (chunk ∷ chunks) =
    let pushed = push buffer chunk in
    let later = push_all pushed.1 chunks in (pushed.0 ++ later.0, later.1)
