-- ===== src/Memif/Tests.antt =====
-- A memory of three words, and the theorems about the memory interface applied to it.
use cn.Common.{
  ◌<◌, ◌>>=◌, ℕ, ◌≡◌, ◌==◌, true, false, none, some, List, [], ◌∷◌, get_elem?, if◌then◌else◌, arith,
  refl,
}
use cn.Core.{MemInput, MemOutput}
use cn.Memif.{MemifState, sim_memif_init, perform, sim_memif_access}
use cn.Memif.Latency.{ideal, access-twice}
use cn.Memif.Bounds.{perform-answers, perform-read_write}

abbrev three_words : List ℕ
three_words = 10 ∷ 11 ∷ 12 ∷ []

abbrev interface : MemifState
interface = sim_memif_init 3

abbrev quiet : MemInput
quiet = record { value = 7; valid = false; fault = false }

abbrev read_two : MemOutput
read_two = record { value = 0; addr = 2; read = true; request = true }

abbrev write_one : MemOutput
write_one = record { value = 99; addr = 1; read = false; request = true }

-- The read just past the end.
abbrev read_three : MemOutput
read_three = record { value = 0; addr = 3; read = true; request = true }

access-twice_example :
    (waiting : MemifState) × (sim_memif_access quiet read_two interface three_words
      ≡ some (record { value = 7; valid = false; fault = false }, waiting, three_words))
    × (sim_memif_access quiet read_two waiting three_words ≡ (
        ideal quiet read_two 3 three_words >>= λ (answer, mem').
        some (answer, record { memlen = 3; delay = 0; quiescent = true }, mem')))
access-twice_example = access-twice interface read_two quiet quiet three_words refl refl

perform-answers_example :
    (3 < 3
      → (w : ℕ) × (get_elem? three_words 3 ≡ some w)
        × (perform quiet read_three interface three_words
            ≡ some (record { value = w; valid = true; fault = false }, interface, three_words)))
    × (3 < 3
        → perform quiet read_three interface three_words
          ≡ some (record { value = 7; valid = false; fault = true }, interface, three_words))
    × (read_three.addr ≡ 3 → perform quiet read_three interface three_words ≡ none)
perform-answers_example = perform-answers interface three_words quiet read_three refl

perform-read_write_example :
    (mem' : List ℕ) × (w : ℕ) × (perform quiet write_one interface three_words
      ≡ some (record { value = 7; valid = true; fault = false }, interface, mem'))
    × (get_elem? three_words 2 ≡ some w)
    × (perform quiet read_two interface mem'
        ≡ some (
          record { value = if 1 == 2 then 99 else w; valid = true; fault = false },
          interface,
          mem',
        ))
perform-read_write_example =
    perform-read_write interface three_words quiet quiet write_one read_two refl refl refl
      (omega arith) (omega arith)
