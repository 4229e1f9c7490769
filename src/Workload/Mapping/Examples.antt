-- ===== src/Workload/Mapping/Examples.antt =====
-- `WriteDataMmap` of src/wrapper/workload.cpp on one mapping, which is what the world is.
use panda_scratchpad.Base.{
  ℕ, ◌+◌, ◌<◌, ◌≡◌, refl, some, [], ◌∷◌, ◌++◌, arith, length, get_elem?, take, length-take,
}
use panda_scratchpad.Base.Int.{pos}
use panda_scratchpad.Base.Words.{Bytes}
use panda_scratchpad.Base.Outcome.{ok, fault}
use panda_scratchpad.Workload.{test_data_block}
use panda_scratchpad.Workload.Block.{letter, length_test_data_block}
use panda_scratchpad.Workload.Mapping.{Mapper, write_data_mmap}
use panda_scratchpad.Workload.Mapping.Aligned.{write_data_mmap-Known}
use panda_scratchpad.Workload.Mapping.Overrun.{write_data_mmap_overruns}

abbrev one_mapping : Mapper Bytes
one_mapping = record { mmap = λ size offset w. some w; msync = λ mem map_size w. (pos 0, mem) }

abbrev seven : Bytes
seven = 7 ∷ 7 ∷ 7 ∷ 7 ∷ 7 ∷ 7 ∷ 7 ∷ []

write_data_mmap-Known_example :
    (zs : Bytes) × (length zs ≡ 3)
    × ((i : ℕ) → i < 3 → get_elem? zs i ≡ some (letter (8192 + i)))
    × (write_data_mmap one_mapping 4 8192 3 seven ≡ ok (pos 0, zs ++ (7 ∷ 7 ∷ 7 ∷ 7 ∷ [])))
write_data_mmap-Known_example =
    write_data_mmap-Known one_mapping 4 8192 3 seven seven refl (omega arith) (omega arith)
      (omega arith) refl (omega arith)

-- A page.
abbrev page : Bytes
page = take 4096 test_data_block

length_page : length page ≡ 4096
length_page = omega (arith, length-take 4096 test_data_block, length_test_data_block)

write_data_mmap_overruns_example : write_data_mmap one_mapping 5000 100 96 page ≡ fault
write_data_mmap_overruns_example =
    write_data_mmap_overruns one_mapping 5000 100 96 page page (omega arith) (omega arith)
      (omega arith) refl (omega (arith, length_page)) (omega (arith, length_page))
      (omega (arith, length_page))
