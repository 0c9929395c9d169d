-- ===== src/Gpu/Examples.antt =====
-- src/gpu.rs and the VRAM cache of src/server.rs: runs, and the theorems at concrete inputs.
use aivyx_broker.Prelude.{
  not, filter, collect_map, ◌>>=◌, ℕ, List, suc, ◌+◌, ◌*◌, ◌≡◌, refl, true, Option, none, some, [],
  ◌∷◌, ◌++◌, codes, arith,
}
use aivyx_broker.Gpu.Whitespace.{trim, lines}
use aivyx_broker.Gpu.{is_empty, parse_line, Card, parse_nvidia_smi, vram, auto}
use aivyx_broker.Gpu.Deadline.{
  Wait, exited, running, Polled, output_of, run_with_deadline, Sleeps, Ends, run_with_deadline-Ends,
}
use aivyx_broker.Gpu.Readings.{summed, parse_nvidia_smi-sum}

-- Two GPUs, the second line without a line feed.
two_gpus :
    parse_nvidia_smi (codes "8192, 1000" ++ 13 ∷ 10 ∷ codes "4096, 24 ")
    ≡ some (record { total_bytes = 12288 * 1048576; used_bytes = 1024 * 1048576 })
unfolding parse_nvidia_smi
two_gpus = refl

malformed_line : parse_nvidia_smi (codes "8192, 1000" ++ 10 ∷ codes "[N/A], 24") ≡ none
unfolding parse_nvidia_smi
malformed_line = refl

abbrev integrated_and_discrete : List (Option Card)
integrated_and_discrete =
    some (record {
      name = codes "card0";
      mem_info_vram_total = some (codes "512");
      mem_info_vram_used = some (codes "100");
    })
    ∷ some (record {
      name = codes "card1-DP-1";
      mem_info_vram_total = some (codes "9999");
      mem_info_vram_used = some (codes "1");
    })
    ∷ none
    ∷ some (record {
      name = codes "card1";
      mem_info_vram_total = some (codes "8000");
      mem_info_vram_used = some (codes "300");
    })
    ∷ []

takes_the_discrete_card :
    vram auto none (some integrated_and_discrete)
    ≡ some (record { total_bytes = 8000; used_bytes = 300 })
unfolding vram
takes_the_discrete_card = refl

-- A command that runs until its fourth poll, on a clock that reads 20 ms more at each.
abbrev slow_command : ℕ → Wait
slow_command (suc (suc (suc i))) = exited true
slow_command _ = running

abbrev clock : ℕ → ℕ
clock i = 500 + 20 * i

clock_sleeps : Sleeps slow_command clock 500 100
clock_sleeps i = omega arith

run_with_deadline-Ends_example :
    (p : Polled) × (run_with_deadline true slow_command clock 500 100 (some (codes "8192, 1"))
      ≡ some (output_of (some (codes "8192, 1")) p))
    × Ends slow_command clock 500 100 0 p
run_with_deadline-Ends_example =
    run_with_deadline-Ends slow_command clock 500 100 (some (codes "8192, 1")) clock_sleeps

hung_command_is_killed : run_with_deadline true (λ i. running) clock 500 100 (some []) ≡ some none
unfolding run_with_deadline
hung_command_is_killed = refl

parse_nvidia_smi-sum_example : parse_nvidia_smi (codes "8192, 1000" ++ 10 ∷ codes "4096, 24") ≡ (
    collect_map parse_line
      (filter (λ l. not (is_empty (trim l))) (lines (codes "8192, 1000" ++ 10 ∷ codes "4096, 24")))
    >>= summed)
parse_nvidia_smi-sum_example = parse_nvidia_smi-sum (codes "8192, 1000" ++ 10 ∷ codes "4096, 24")
