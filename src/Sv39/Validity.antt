-- ===== src/Sv39/Validity.antt =====
-- Which addresses the validation of scripts/sv39.py lets through.
use os_project_signal.Prelude.{ℕ, ◌-◌, ◌≤◌, ◌<◌, ◌^◌, ◌≡◌, ◌↔◌, arith}
use os_project_signal.Sv39.{ok, validate_sv39_address}

-- Of the 64-bit addresses, exactly those are accepted whose bits from 38 to 63 are all one. In
-- particular every canonical address below 2 ^ 38 is rejected, against the rule of the function's own
-- comment.
pub validate_iff :
    (va : ℕ) → va < 2 ^ 64 → (validate_sv39_address va ≡ ok tt) ↔ (2 ^ 64 - 2 ^ 38 ≤ va)
unfolding validate_sv39_address
validate_iff va h = (λ e. ground arith, λ e. ground arith)
