-- ===== src/Blocks/Tests.antt =====
-- A block of two rows and two columns between the grids of two pairs of short words.
use university_coursework.Base.{
  ℕ, ◌≡◌, refl, Option, some, List, [], ◌∷◌, arith, replicate, length-replicate,
}
use university_coursework.Lcs.{Cell, blank}
use university_coursework.Lcs.Fill.{with_cells}
use university_coursework.Lcs.Block.{fresh, fresh-IsValid}
use university_coursework.Blocks.{grid_serialize_block, grid_deserialize_block}
use university_coursework.Blocks.Arrive.{Arrived, block_arrives}

abbrev word : List ℕ
word = 5 ∷ 6 ∷ 7 ∷ []

abbrev give : ℕ → Option (List Cell)
give n = some (replicate n blank)

block_arrives_example :
    (s : List Cell) × (cells : List Cell) × (grid_serialize_block give (fresh word word) 1 1 2 2
      ≡ some s)
    × (grid_deserialize_block (fresh word word) s 1 1 2 2
        ≡ some (with_cells (fresh word word) cells))
    × Arrived (fresh word word) (fresh word word) 1 1 2 2 cells
unfolding fresh
block_arrives_example =
    block_arrives give (fresh word word) (fresh word word) 1 1 2 2
      (fresh-IsValid word word refl (omega arith)) (fresh-IsValid word word refl (omega arith)) refl
      refl (omega arith) (omega arith) (omega arith) (omega arith)
      (replicate 4 blank, refl, length-replicate 4 blank)
