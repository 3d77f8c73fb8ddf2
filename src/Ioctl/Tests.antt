-- ===== src/Ioctl/Tests.antt =====
-- Macros that keep a command's type, number and direction apart, and the theorems at them.
use l3_dd_trg.Base.{false, List, [], ◌∷◌, ℕ, ◌+◌, ◌*◌, ◌/◌, ◌%◌, ◌^◌, ◌≡◌, ◌<◌, true, arith}
use l3_dd_trg.Base.Int.{pos, negsuc}
use l3_dd_trg.Base.Ledger.{succeeded}
use l3_dd_trg.Ioctl.{IoctlMacros, Kernel, ioc_query_power, ioc_set_power}
use l3_dd_trg.Ioctl.User.{user_test, user_test_flips}
use l3_dd_trg.Ioctl.History.{Call, IsInt, AllTyped, serve_all, left_set, serve_all-IsTyped}

encode : ℕ → ℕ → ℕ → ℕ
encode direction t n = direction * 65536 + t * 256 + n

encode_lem :
    (direction t n : ℕ)
    → t < 2 ^ 8
    → n < 2 ^ 8
    → (encode direction t n / 256 % 256 ≡ t) × (encode direction t n % 256 ≡ n)
unfolding encode
encode_lem direction t n h k = (omega arith, omega arith)

abbrev macros : IoctlMacros
macros = record {
  io = encode 0;
  ior_int = encode 32772;
  iow_int = encode 16388;
  ioc_type = λ c. c / 256 % 256;
  ioc_nr = λ c. c % 256;
  io_lem = encode_lem 0;
  ior_lem = encode_lem 32772;
  iow_lem = encode_lem 16388;
}

abbrev admin : Kernel
admin = record { capable = true; put_user = succeeded }

user_test_flips_example : user_test macros admin 2 0 0x7FFC (pos 99) (negsuc 4) ≡ (0, pos 0)
user_test_flips_example = user_test_flips macros admin 2 0 0x7FFC (pos 99) (negsuc 4)

-- A set of 7, one of 9 without the privilege, a query, a set of 2^32 - 5.
abbrev history : List Call
history =
    record { kernel = admin; cmd = ioc_set_power macros; arg = 7 }
    ∷ record { kernel = record admin { capable = false }; cmd = ioc_set_power macros; arg = 9 }
    ∷ record { kernel = admin; cmd = ioc_query_power macros; arg = 0 }
    ∷ record { kernel = admin; cmd = ioc_set_power macros; arg = 4294967291 }
    ∷ []

serve_all-IsTyped_example :
    AllTyped (serve_all macros history (pos 1))
    × IsInt (left_set macros history (pos 1))
    × (left_set macros history (pos 1) ≡ negsuc 4)
unfolding encode
serve_all-IsTyped_example = serve_all-IsTyped macros history (pos 1) (omega arith) (omega arith)
