-- ===== src/Tty/Tests.antt =====
-- Terminals at concrete states.
use neux_os.Prelude.{◌≡◌, refl, false, ◌==◌, if◌then◌else◌, some, [], ◌∷◌, arith}
use neux_os.Monitor.{Monitor}
use neux_os.Tty.{Iobuf, Terminals, tty_in_proc}
use neux_os.Tty.Input.{Queued}
use neux_os.Tty.Keypress.{Received, tty_in_proc-bytes_of}

-- "ls", across the end of the array.
abbrev typed : Iobuf
typed = record { cells = λ i. if i == 0 then 115 else 108; count = 2; head = 1; tail = 1023 }

abbrev display : Monitor
display = record {
  start = 0;
  limit = 5120;
  screen = 0;
  cursor = 160;
  color = 7;
  foreground = false;
}

abbrev terminals : Terminals
terminals = record {
  input = λ i. typed;
  mon = λ i. display;
  current = 0;
  video = record { cells = λ q. 0x720; start = 0; cursor = 160 };
}

typed-Queued : Queued typed (108 ∷ 115 ∷ [])
typed-Queued = record {
  along = (refl, (refl, refl));
  counted = refl;
  fits = omega arith;
  tail_in = omega arith;
}

-- The key "up".
tty_in_proc-bytes_of_example :
    (t' : Terminals) × (tty_in_proc 40 terminals 2 0x125 ≡ some t')
    × Received terminals 2 (108 ∷ 115 ∷ 0x1b ∷ 0x5b ∷ 65 ∷ []) t'
tty_in_proc-bytes_of_example =
    tty_in_proc-bytes_of 40 terminals 2 0x125 (108 ∷ 115 ∷ []) typed-Queued
      (λ i. record { limit = refl; cursor = omega arith; start = omega arith }) (omega arith)
      (omega arith) (omega arith)
