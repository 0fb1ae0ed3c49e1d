-- ===== src/Syscall/Dispatch.antt =====
-- The table of the system calls.
use capstone_myos.Prelude.{
  ℕ, zero, suc, ◌-◌, ◌≡◌, refl, arith, none, [], ◌∷◌, get_elem?, ◌==◌, if◌then◌else◌,
}
use capstone_myos.Syscall.{
  sys_test_print, sys_getchar, sys_exit_call, sys_play_sound, sys_sleep, syscall_install,
  syscall_handler,
}

-- The five calls have the numbers from 1 on, in this order; every other number is refused.
pub dispatch_lem :
    (number : ℕ)
    → syscall_handler syscall_install number ≡ (
        if number == 0
        then none
        else get_elem?
            (sys_test_print ∷ sys_getchar ∷ sys_exit_call ∷ sys_play_sound ∷ sys_sleep ∷ [])
            (number - 1))
unfolding syscall_handler syscall_install
dispatch_lem zero = refl
dispatch_lem (suc zero) = refl
dispatch_lem (suc (suc zero)) = refl
dispatch_lem (suc (suc (suc zero))) = refl
dispatch_lem (suc (suc (suc (suc zero)))) = refl
dispatch_lem (suc (suc (suc (suc (suc zero))))) = refl
dispatch_lem (suc (suc (suc (suc (suc (suc n)))))) = ground arith
