-- ===== src/Tests/Net.antt =====
-- A trusted proxy that appends one entry, and a client that writes another before it. Code points
-- stand for whole addresses here, and any text but a blank one is an address.
use transaction_monitoring_s.Prelude.{
  ℕ, ◌≡◌, refl, Bool, true, Option, none, some, List, [], ◌∷◌, ◌++◌, ◌==◌,
}
use transaction_monitoring_s.Net.{
  Text, comma, Connection, Settings, client_ip, client_ip_of, is_trusted_proxy_peer,
  peer_is_trusted_proxy, parse_ip, strip, trim_start, trim_end, host_of, entries, entries_of, split,
  split_parts, from_right, forwarded, by_header,
}
use transaction_monitoring_s.Net.Spoof.{client_ip-spoofed}
use native.Mathlib.Omega.{arith}

abbrev address : Text → Option Text
address [] = none
address (c ∷ cs) = some (c ∷ cs)

abbrev is_blank : ℕ → Bool
is_blank c = c == 32

abbrev settings : Settings ℕ
settings = record {
  trusted_proxy_enabled = true;
  trusted_proxy_networks = some (10 ∷ []);
  trusted_proxy_client_ip_header = [];
  trusted_proxy_hops = 1;
}

abbrev request : List Text → Connection
request values = record { host = some (100 ∷ []); header = λ name. none; forwarded_for = values }

abbrev ip : List Text → Option (Option Text)
ip values =
    client_ip is_blank address (λ a. none) (λ a. a) (λ a n. true) settings (some (request values))

client_ip-spoofed_example :
    ip ((103 ∷ []) ∷ ((101 ∷ []) ++ comma ∷ 32 ∷ 102 ∷ []) ∷ []) ≡ ip ((32 ∷ 102 ∷ []) ∷ [])
unfolding entries entries_of split split_parts strip trim_start trim_end
client_ip-spoofed_example =
    client_ip-spoofed is_blank address (λ a. none) (λ a. a) (λ a n. true) settings (request [])
      ((103 ∷ []) ∷ []) (101 ∷ []) (32 ∷ 102 ∷ []) (omega arith)

second_from_right : ip (((101 ∷ []) ++ comma ∷ 32 ∷ 102 ∷ []) ∷ []) ≡ some (some (102 ∷ []))
unfolding client_ip client_ip_of is_trusted_proxy_peer peer_is_trusted_proxy parse_ip strip
    trim_start trim_end host_of entries entries_of split split_parts from_right forwarded by_header
second_from_right = refl
