-- ===== src/Servers/Tests.antt =====
-- Three servers, the last one preferred.
use mathlib.Core.List.{Perm}
use uurc_web_new.Prelude.{ℕ, ◌≡◌, refl, some, List, [], ◌∷◌}
use uurc_web_new.Prelude.Int.{pos, negsuc, number}
use uurc_web_new.Servers.{order_servers}
use uurc_web_new.Servers.Order.{order_servers-Perm}

abbrev three : List ℕ
three = 7 ∷ 8 ∷ 9 ∷ []

last_first : order_servers three (some (number (pos 2))) ≡ 9 ∷ 7 ∷ 8 ∷ []
unfolding order_servers
last_first = refl

past_end : order_servers three (some (number (pos 3))) ≡ three
unfolding order_servers
past_end = refl

negative : order_servers three (some (number (negsuc 0))) ≡ three
unfolding order_servers
negative = refl

order_servers-Perm_example : Perm (order_servers three (some (number (pos 2)))) three
order_servers-Perm_example = order_servers-Perm three (some (number (pos 2)))
