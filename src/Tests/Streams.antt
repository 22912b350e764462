-- ===== src/Tests/Streams.antt =====
-- session.go, `readLoop` on output that is cut in the middle of a sequence and of a rune.
use windrunner.Prelude.{◌≡◌, ◌≤◌, ◌⊎◌, refl, ◌++◌, [], ◌∷◌, codes, Bytes, List, take, length, arith}
use windrunner.Boundary.{
  ground_state, escape, incomplete_rune_tail, complete_boundary, scan_byte, max_holdback, read_loop,
}
use windrunner.Boundary.Holdback.{held_after, length-held_after}
use windrunner.Boundary.Runes.{EndsOpen, incomplete_rune_tail-EndsOpen}
use windrunner.Boundary.Scan.{scan}
use windrunner.Boundary.Stream.{joined, joined-read_loop, complete_boundary_torn}

-- "a", ESC, and an é, in three reads.
abbrev reads : List Bytes
reads = (97 ∷ 0x1b ∷ []) ∷ (b'[' ∷ b'm' ∷ 0xc3 ∷ []) ∷ (0xa9 ∷ []) ∷ []

joined-read_loop_example : joined (read_loop [] reads) ≡ [] ++ joined reads
joined-read_loop_example = joined-read_loop [] reads

length-held_after_example : length (held_after [] reads) ≤ max_holdback
length-held_after_example = length-held_after reads (omega arith, (omega arith, (omega arith, tt)))

ground_a : scan ground_state (codes "a") ≡ ground_state
unfolding scan_byte
ground_a = refl

complete_boundary_torn_example :
    (complete_boundary (codes "a" ++ 0x1b ∷ 0xc3 ∷ []) ≡ 2)
    × (scan ground_state
          (take (complete_boundary (codes "a" ++ 0x1b ∷ 0xc3 ∷ [])) (codes "a" ++ 0x1b ∷ 0xc3 ∷ []))
        ≡ escape)
complete_boundary_torn_example =
    complete_boundary_torn (codes "a") 0xc3 ground_a (omega arith) (omega arith) (omega arith)

incomplete_rune_tail-EndsOpen_example :
    (incomplete_rune_tail (97 ∷ 0xe2 ∷ 0x82 ∷ []) ≡ 0)
    ⊎ EndsOpen (97 ∷ 0xe2 ∷ 0x82 ∷ []) (incomplete_rune_tail (97 ∷ 0xe2 ∷ 0x82 ∷ []))
incomplete_rune_tail-EndsOpen_example =
    incomplete_rune_tail-EndsOpen (97 ∷ 0xe2 ∷ 0x82 ∷ [])
      (omega arith, (omega arith, (omega arith, tt)))
