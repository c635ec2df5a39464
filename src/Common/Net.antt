-- ===== src/Common/Net.antt =====
-- `std::net::Ipv4Addr`, and how it is written.
use Prim.Native.Nat.{ℕ}
use mathlib.Core.Bool.{Bool, ◌&&◌}
use mathlib.Core.List.{◌++◌}
use cast_app.Common.Tests.{◌==◌}
use cast_app.Common.Text.{Text, codes, decimal}

pub record Ipv4Addr : Type 0 where
  pub octet0 : ℕ
  pub octet1 : ℕ
  pub octet2 : ℕ
  pub octet3 : ℕ

abbrev pub ip_eq : Ipv4Addr → Ipv4Addr → Bool
ip_eq i j =
    i.octet0 == j.octet0 && i.octet1 == j.octet1 && i.octet2 == j.octet2 && i.octet3 == j.octet3

unfoldable pub ip_text : Ipv4Addr → Text
unfolding decimal
ip_text i =
    decimal i.octet0
    ++ (codes "."
        ++ (decimal i.octet1
            ++ (codes "." ++ (decimal i.octet2 ++ (codes "." ++ decimal i.octet3)))))
