-- ===== src/CpIf/Args/Tests.antt =====
-- The arguments of texts.
use cn.Common.{◌≡◌, refl, [], ◌∷◌, some, none}
use cn.Instr.Table.{codes}
use cn.Text.Fields.{fields}
use cn.CpIf.Args.{sim_cp_hdr_init, sim_cp_hdr_init-fields}

sim_cp_hdr_init-fields_example :
    sim_cp_hdr_init (some (codes "-o,a.out,3"))
    ≡ some (record { argc = 3; argv = codes "-o" ∷ codes "a.out" ∷ codes "3" ∷ [] })
unfolding fields
sim_cp_hdr_init-fields_example = sim_cp_hdr_init-fields b'-' (codes "o,a.out,3") refl

-- An empty argument is counted, but its comma stays in the next one.
empty_argument :
    sim_cp_hdr_init (some (codes "a,,b"))
    ≡ some (record { argc = 3; argv = codes "a" ∷ codes ",b" ∷ [] })
unfolding sim_cp_hdr_init
empty_argument = refl

-- After a comma at the end the text is read past its end.
last_comma : sim_cp_hdr_init (some (codes "a,")) ≡ none
unfolding sim_cp_hdr_init
last_comma = refl
