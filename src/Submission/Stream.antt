-- ===== src/Submission/Stream.antt =====
-- Bodies read from a stream with a limit on their length, which packages/submission/src/client.ts,
-- apps/submission-relay/src/handler.ts and apps/submission-relay/src/github-queue.ts each do with
-- the same loop: the chunks are collected, then copied into one array.
pub mod Laws
use qvac_atlas.Base.{
  ℕ, zero, suc, ◌+◌, String, Bool, true, false, not, ◌&&◌, ◌||◌, Option, none, some, List, [], ◌∷◌,
  ◌++◌, and_then, length, take, all, ltb, leb, codes, is_digit, number_of, if◌then◌else◌,
}

abbrev pub Bytes : Type 0
Bytes = List ℕ

-- What `reader.read()` gives before it is done; the end of a list of reads is `done`.
pub data Read : Type 0 where
  chunk : Bytes → Read
  broken : Read

pub data Drained : Type 0 where
  whole : Bytes → Drained
  too_long failed : Drained

abbrev pub zeros : ℕ → Bytes
zeros zero = []
zeros (suc n) = 0 ∷ zeros n

abbrev pub drop : ℕ → Bytes → Bytes
drop zero bs = bs
drop (suc n) [] = []
drop (suc n) (b ∷ bs) = drop n bs

-- `bytes.set(chunk, offset)`, which throws if the chunk does not fit.
abbrev pub set : Bytes → Bytes → ℕ → Option Bytes
set bytes c offset =
    if leb (offset + length c) (length bytes)
    then some (take offset bytes ++ c ++ drop (offset + length c) bytes)
    else none

abbrev pub copy_from : ℕ → List Bytes → Bytes → Option Bytes
copy_from offset [] bytes = some bytes
copy_from offset (c ∷ cs) bytes = and_then (set bytes c offset) (copy_from (offset + length c) cs)

unfoldable pub assemble : List Bytes → ℕ → Option Bytes
assemble chunks n = copy_from 0 chunks (zeros n)

abbrev pub or_failed : Option Bytes → Drained
or_failed (some bytes) = whole bytes
or_failed none = failed

-- The loop, with the chunks and the length so far.
unfoldable pub drain_from : ℕ → List Bytes → ℕ → List Read → Drained
unfolding assemble
drain_from limit chunks n [] = or_failed (assemble chunks n)
drain_from limit chunks n (broken ∷ reads) = failed
drain_from limit chunks n (chunk c ∷ reads) =
    let rest = drain_from limit (chunks ++ (c ∷ [])) (n + length c) reads in
    if ltb limit (n + length c) then too_long else rest

unfoldable pub drain : ℕ → List Read → Drained
unfolding drain_from
drain limit reads = drain_from limit [] 0 reads

-- Whether a declared content length is malformed or above the limit.
unfoldable pub declares_more : ℕ → Option String → Bool
declares_more limit none = false
declares_more limit (some declared) =
    not (ltb 0 (length (codes declared)) && all is_digit (codes declared))
    || ltb limit (number_of declared)
