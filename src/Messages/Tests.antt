-- ===== src/Messages/Tests.antt =====
-- messages.c: the properties on concrete memories.
use t4p4s_ma.Common.{ℕ, ◌+◌, ◌≡◌, ◌<◌, refl, arith, ◌==◌, if◌then◌else◌}
use t4p4s_ma.Memory.{Mem, ok, Returns, ◌>>=◌, load16}
use t4p4s_ma.Messages.Layout.At
use t4p4s_ma.Messages.Layout.Size
use t4p4s_ma.Messages.Layout.Code.{exact, lpm}
use t4p4s_ma.Messages.Entry.{add_p4_field_match_exact, netconv_p4_field_match_complex}
use t4p4s_ma.Messages.Action.{add_p4_action_parameter}
use t4p4s_ma.Messages.Grow.{
  Grown, IsMatch, add_p4_action_parameter_lem, add_p4_field_match_exact_lem,
}
use t4p4s_ma.Messages.ByteOrder.{turned16, netconv_p4_field_match_complex_twice}

-- A memory whose message, at 0, has 140 bytes, and with a 2 at all other places.
abbrev mem : Mem
mem a = if a == 2 then 140 else (if a == 3 then 0 else 2)

mem_bytes : (a : ℕ) → mem a < 256
mem_bytes a = ground arith

-- The same for 528 bytes.
abbrev longer : Mem
longer a = if a == 2 then 16 else 2

add_p4_field_match_exact_lem_example :
    Returns
      (λ r g. Grown mem 0 Size.field_match_exact (0 + At.read_size) 2048 r g × IsMatch exact r g)
      (add_p4_field_match_exact 0 2048 mem)
add_p4_field_match_exact_lem_example =
    add_p4_field_match_exact_lem 0 2048 mem
      (unfold load16 in record { long = omega arith; below = omega arith })

add_p4_action_parameter_lem_example :
    Returns
      (Grown longer 0 Size.action_parameter (300 + At.param_size) 2048)
      (add_p4_action_parameter 0 300 2048 longer)
add_p4_action_parameter_lem_example =
    add_p4_action_parameter_lem 0 300 2048 longer
      (unfold load16 in record { long = omega arith; below = omega arith }) (omega arith)
      (unfold load16 in omega arith)

netconv_p4_field_match_complex_twice_example :
    (netconv_p4_field_match_complex 0 mem ≡ ok Size.field_match_lpm (turned16 mem At.match_length))
    × ((netconv_p4_field_match_complex 0 >>= λ size. netconv_p4_field_match_complex 0) mem
        ≡ ok Size.field_match_lpm mem)
netconv_p4_field_match_complex_twice_example =
    netconv_p4_field_match_complex_twice lpm 0 mem mem_bytes refl
