-- ===== src/Printf/Tests.antt =====
-- Numbers at concrete values.
use neux_os.Prelude.{◌≡◌, refl, [], ◌∷◌, false, arith}
use neux_os.Printf.{vsprintf_d}
use neux_os.Printf.Read.{read_signed}
use neux_os.Printf.Signed.{vsprintf_d-read_signed}

-- %5d of -42
padded_negative : vsprintf_d 0xffff_ffd6 false false 5 ≡ 32 ∷ 32 ∷ 45 ∷ 52 ∷ 50 ∷ []
unfolding vsprintf_d
padded_negative = refl

vsprintf_d-read_signed_example : read_signed (vsprintf_d 0xffff_ffd6 false false 5) ≡ 0xffff_ffd6
vsprintf_d-read_signed_example = vsprintf_d-read_signed 0xffff_ffd6 false false 5 (omega arith)
