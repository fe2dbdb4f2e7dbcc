-- ===== src/Ingestion/Snappy.antt =====
-- `bounded_snappy` of src/monitoring/agents/ingestion.py, which reads the decoded size of a block.
pub mod Laws
use dragontools.Common.{
  ℕ, suc, ◌+◌, ◌*◌, ◌^◌, ◌%◌, Bool, true, false, ◌&&◌, List, [], ◌∷◌, Text, ltb, leb, take,
  if◌then◌else◌,
}
use dragontools.Common.Result.{Result, ok, refused}

abbrev pub block_limit : ℕ
block_limit = 16777216

-- The loop from an index on. The bits of `(byte & 127) << (index * 7)` are all above those of `size`,
-- so that `|=` adds them.
unfoldable pub size_from : ℕ → ℕ → Text → Result (Unit {0})
size_from index size [] = refused
size_from index size (byte ∷ bytes) =
    let sum = size + (byte % 128) * 2 ^ (index * 7) in
    let rest = size_from (suc index) sum bytes in
    if ltb byte 128 then if ltb 0 sum && leb sum block_limit then ok tt else refused else rest

-- `bounded_snappy(body)`
unfoldable pub bounded_snappy : Text → Result (Unit {0})
unfolding size_from
bounded_snappy body = size_from 0 0 (take 5 body)
