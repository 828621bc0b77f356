-- ===== src/Servers/Order.antt =====
-- Every server is tried.
use uurc_web_new.Prelude.{
  ℕ, zero, suc, ◌≡◌, refl, ap, subst, Option, none, some, List, [], ◌∷◌, ◌++◌, take, drop,
  get_elem?, arith,
}
use uurc_web_new.Prelude.Int.{pos, negsuc, Numeric, number, bigint, inexact}
use uurc_web_new.Servers.{servers_from, order_servers}
use mathlib.Core.List.{Perm, perm_middle}
use mathlib.Core.List.Perm

split-get_elem? :
    {A : Type 0} (l : List A) (i : ℕ) (a : A)
    → get_elem? l i ≡ some a
    → take i l ++ a ∷ drop (suc i) l ≡ l
split-get_elem? [] zero a h = ground (arith, h)
split-get_elem? [] (suc i) a h = ground (arith, h)
split-get_elem? (x ∷ xs) zero a h = ground (arith, h)
split-get_elem? (x ∷ xs) (suc i) a h = ap (λ l. x ∷ l) (split-get_elem? xs i a h)

servers_from-Perm :
    {A : Type 0} (l : List A) (i : ℕ) (o : Option A)
    → get_elem? l i ≡ o
    → Perm (servers_from l i o) l
servers_from-Perm l i none h = Perm.refl l
servers_from-Perm l i (some a) h =
    subst (λ x. Perm (servers_from l i (some a)) x) (split-get_elem? l i a h)
      (Perm.symm (perm_middle (take i l) (drop (suc i) l)))

-- Whatever the preferred index is, every server is tried as often as it is given: the order is a
-- permutation of the servers.
pub order_servers-Perm :
    {A : Type 0} (servers : List A) (index : Option Numeric)
    → Perm (order_servers servers index) servers
unfolding order_servers
order_servers-Perm servers none = Perm.refl servers
order_servers-Perm servers (some (number (pos i))) =
    servers_from-Perm servers i (get_elem? servers i) refl
order_servers-Perm servers (some (number (negsuc i))) = Perm.refl servers
order_servers-Perm servers (some (bigint z)) = Perm.refl servers
order_servers-Perm servers (some inexact) = Perm.refl servers
