-- ===== src/Sched/Clock.antt =====
-- clock_handler: what a tick does to the sleeping tasks.
use neux_os.Prelude.{
  ℕ, zero, suc, ◌≡◌, false, List, [], ◌∷◌, arith, ◌<◌, ◌≤◌, ◌+◌, ◌-◌, ◌^◌, ◌%◌, ◌==◌, ltb, length,
  ==_refl,
}
use neux_os.Prelude.Outcome.{done}
use neux_os.Links.{null, update, load_next}
use neux_os.Links.Chain.{has, Forward, Ring}
use neux_os.Sched.{
  Heads, Kernel, member, container_of, list_offset, running_offset, delay_offset, files_offset,
  delay_loop, clock_handler, task_sched,
}
use neux_os.Sched.Queue.{member-container_of}

-- The address of `files[1]`, the standard output, of the task that is queued by this hook.
abbrev pub stdout_of : ℕ → ℕ
stdout_of hook = member (files_offset + 4) (container_of running_offset hook)

-- That address is where the loop looks for the member `delay`.
pub delay-stdout :
    (hook : ℕ)
    → hook < 2 ^ 32
    → member delay_offset (container_of list_offset hook) ≡ stdout_of hook
delay-stdout hook h = ground arith

abbrev pub aged : List ℕ → (ℕ → ℕ) → ℕ → ℕ
aged [] word = word
aged (h ∷ hs) word = aged hs (update word (stdout_of h) (word (stdout_of h) - 1000))

-- No standard output pointer of a sleeping task is below one tick.
abbrev pub AllAbove : List ℕ → (ℕ → ℕ) → Type 0
AllAbove [] word = Unit
AllAbove (h ∷ hs) word =
    (1000 ≤ word (stdout_of h))
    × AllAbove hs (update word (stdout_of h) (word (stdout_of h) - 1000))

abbrev pub AllSmall : List ℕ → Type 0
AllSmall [] = Unit
AllSmall (h ∷ hs) = (h < 2 ^ 32) × AllSmall hs

delay_loop-aged :
    (heads : Heads) (fuel rounds : ℕ) (k : Kernel) (p : ℕ) (hs : List ℕ)
    → Forward k.links.next p hs heads.delay_queue
    → has heads.delay_queue hs ≡ false
    → has null hs ≡ false
    → heads.delay_queue < 2 ^ 32
    → AllSmall hs
    → AllAbove hs k.word
    → length hs < rounds
    → delay_loop heads fuel rounds (container_of list_offset (k.links.next p)) k
      ≡ done false (record k { word = aged hs k.word })
unfolding delay_loop load_next
delay_loop-aged heads fuel zero k p hs c out some hd small above fit = absurd (omega arith)
delay_loop-aged heads fuel (suc rounds) k p [] c out some hd small above fit = rw (
  c,
  member-container_of list_offset heads.delay_queue (omega arith) hd,
  ==_refl heads.delay_queue,
)
delay_loop-aged heads fuel (suc rounds) k p (h ∷ hs) c out some hd small above fit =
    let other : (h == heads.delay_queue) ≡ false = ground arith in
    let h_ok : (h == null) ≡ false = ground arith in
    let late : ltb (k.word (stdout_of h)) 1000 ≡ false = ground (arith, above.0) in
    let k' = record k { word = update k.word (stdout_of h) (k.word (stdout_of h) - 1000) } in
    rw
      (
        c.0,
        member-container_of list_offset h (omega arith) small.0,
        other,
        delay-stdout h small.0,
        late,
      )
      (rw h_ok (
        delay_loop-aged heads fuel rounds k' h hs c.1 (ground arith) (ground arith) hd small.1
          above.1 (omega arith)))

-- A tick at which no sleeper's standard output pointer is below 1000 takes 1000 from each of these
-- pointers, wakes nobody, and goes on to task_sched: whatever the sleepers' `delay` holds, it is
-- neither read nor counted down.
pub clock_handler-stdout :
    (heads : Heads) (k : Kernel) (hs : List ℕ) (fuel : ℕ)
    → Ring k.links heads.delay_queue hs
    → heads.delay_queue < 2 ^ 32
    → AllSmall hs
    → AllAbove hs k.word
    → length hs < fuel
    → clock_handler heads fuel k
      ≡ task_sched heads fuel
          (record k { word = aged hs k.word; jeffies = (k.jeffies + 1) % 2 ^ 32 })
unfolding clock_handler load_next
clock_handler-stdout heads k hs fuel r hd small above fit =
    let head_ok : (heads.delay_queue == null) ≡ false = ground (arith, r.non_null) in
    rw (
      head_ok,
      delay_loop-aged heads fuel fuel (record k { jeffies = (k.jeffies + 1) % 2 ^ 32 })
          heads.delay_queue hs r.forward r.distinct.0 (ground (arith, r.non_null)) hd small above
          fit,
    )
