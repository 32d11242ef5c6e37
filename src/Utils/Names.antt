-- ===== src/Utils/Names.antt =====
-- `make_uuid`, `thread_set_name` and `fail` of src/utils.cpp. The numbers that the distribution gives are a
-- parameter, and so is the message of an error; what is printed or handed to pthread is the result.
use beauty_cl.Prelude.{ℕ, zero, suc, [], ◌∷◌, ◌++◌, Bytes, codes, take}
use beauty_cl.Utils.Escape.{dec2hex}
use beauty_cl.Route.{c_string}

-- The loop over the characters: `n` are left, and `k` numbers were drawn.
unfoldable pub fill_uuid : (ℕ → ℕ) → ℕ → ℕ → Bytes
fill_uuid draw k zero = []
fill_uuid draw k (suc n) = dec2hex (draw k) ∷ fill_uuid draw (suc k) n

unfoldable pub make_uuid : (ℕ → ℕ) → Bytes
make_uuid draw = fill_uuid draw 0 32

-- `strncpy` copies at most 15 characters, and a zero byte ends the name.
unfoldable pub thread_set_name : Bytes → Bytes
thread_set_name name = take 15 (c_string name)

unfoldable pub fail : Bytes → Bytes → Bytes
fail message what = what ++ (codes ": " ++ (message ++ codes "\n"))
