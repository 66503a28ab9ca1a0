-- ===== src/Links/Tests.antt =====
-- The list theorems at concrete lists.
use neux_os.Prelude.{◌≡◌, refl, [], ◌∷◌, arith, ◌==◌, if◌then◌else◌}
use neux_os.Prelude.Outcome.{done}
use neux_os.Links.{Links, null, list_add_tail, list_del}
use neux_os.Links.Chain.{Ring, SameOutside}
use neux_os.Links.Refine.{list_add_tail-Ring, list_del-Ring}

-- a head at 8 with the nodes 24 and 16
abbrev two : Links
two = record {
  next = λ a. if a == 8 then 24 else if a == 24 then 16 else if a == 16 then 8 else 0;
  prev = λ a. if a == 8 then 16 else if a == 16 then 24 else if a == 24 then 8 else 0;
}

two-Ring : Ring two 8 (24 ∷ 16 ∷ [])
two-Ring = record {
  forward = ground arith;
  backward = ground arith;
  distinct = ground arith;
  non_null = refl;
}

list_add_tail-Ring_example :
    (m' : Links) × (list_add_tail 3 8 32 two ≡ done tt m')
    × Ring m' 8 (24 ∷ 16 ∷ 32 ∷ [])
    × SameOutside (32 ∷ 8 ∷ 24 ∷ 16 ∷ []) two m'
list_add_tail-Ring_example = list_add_tail-Ring 3 32 two-Ring refl (omega arith) (omega arith)

list_del-Ring_example :
    (m' : Links) × (list_del 16 two ≡ done tt m')
    × Ring m' 8 (24 ∷ [])
    × (m'.next 16 ≡ null)
    × (m'.prev 16 ≡ null)
    × SameOutside (8 ∷ 24 ∷ 16 ∷ []) two m'
list_del-Ring_example = list_del-Ring (24 ∷ []) 16 [] two-Ring
