-- ===== src/Net/Spoof.antt =====
-- What a client can write into X-Forwarded-For does not count: backend/app/net.py.
use transaction_monitoring_s.Prelude.{
  ℕ, zero, suc, ◌+◌, ◌-◌, ◌≤◌, ◌≡◌, refl, ◌∙◌, sym, ap, Bool, true, false, Option, none, some, List,
  [], ◌∷◌, ◌++◌, map, keep, length, length-append, ◌==◌, not, arith, Bool-cases, inl, inr,
  keep-append,
}
use mathlib.Core.List.{append_assoc, append-nil, map-append}
use transaction_monitoring_s.Net.{
  Text, is_empty, comma, split_parts, split, Connection, Settings, get_elem?, strip, entries,
  from_right, forwarded, by_header, client_ip_of, client_ip, is_trusted_proxy_peer, or_direct,
  parse_ip, entries_of,
}

split_parts-append :
    (c : ℕ) (a b : Text)
    → split_parts c (a ++ c ∷ b) ≡ ((split_parts c a).0, (split_parts c a).1 ++ split c b)
unfolding split_parts split
split_parts-append c [] b = ground arith
split_parts-append c (x ∷ a) b = elim (Bool-cases (x == c)) [
  | inl e ↦ simp (e, split_parts-append c a b) refl
  | inr e ↦ simp (e, split_parts-append c a b) refl
]

-- An entry that is appended after a separator is split off as it is.
split-append : (c : ℕ) (a b : Text) → split c (a ++ c ∷ b) ≡ split c a ++ split c b
unfolding split
split-append c a b = simp (split_parts-append c a b) refl

get_elem-append :
    {A : Type 0} (xs ys : List A) (i j : ℕ)
    → i ≡ length xs + j
    → get_elem? (xs ++ ys) i ≡ get_elem? ys j
get_elem-append [] ys i j e = ap (get_elem? ys) (e ∙ omega arith)
get_elem-append (x ∷ xs) ys zero j e = ground (arith, e)
get_elem-append (x ∷ xs) ys (suc i) j e = get_elem-append xs ys i j (omega (arith, e))

from_right-append :
    (hops : ℕ) (xs ys : List Text)
    → hops ≤ length ys
    → from_right hops (xs ++ ys) ≡ from_right hops ys
unfolding from_right
from_right-append hops xs ys h = ground (
  arith,
  length-append xs ys,
  get_elem-append xs ys (length (xs ++ ys) - hops) (length ys - hops)
      (omega (arith, length-append xs ys, h)),
)

module _ (is_space : ℕ → Bool) where
  entries-append :
      (vs ws : List Text) → entries is_space (vs ++ ws) ≡ entries is_space vs ++ entries is_space ws
  unfolding entries
  entries-append [] ws = refl
  entries-append (v ∷ vs) ws =
      ap (entries_of is_space v ++◌) (entries-append vs ws)
      ∙ sym (append_assoc (entries_of is_space v) (entries is_space vs) (entries is_space ws))

  entries_of-append :
      (a b : Text)
      → entries_of is_space (a ++ comma ∷ b) ≡ entries_of is_space a ++ entries_of is_space b
  unfolding entries_of
  entries_of-append a b =
      ap (λ es. keep (λ e. not (is_empty e)) (map (strip is_space) es)) (split-append comma a b)
      ∙ ap (keep (λ e. not (is_empty e)))
          (map-append (strip is_space) (split comma a) (split comma b))
      ∙ keep-append (λ e. not (is_empty e)) (map (strip is_space) (split comma a))
          (map (strip is_space) (split comma b))

  -- What stands before a comma of the last value, and in the values before it, adds entries on the
  -- left only.
  entries-spoofed :
      (vs : List Text) (a b : Text)
      → entries is_space (vs ++ (a ++ comma ∷ b) ∷ [])
        ≡ entries is_space (vs ++ a ∷ []) ++ entries is_space (b ∷ [])
  unfolding entries
  entries-spoofed vs a b = rw (
    entries-append vs ((a ++ comma ∷ b) ∷ []),
    entries-append vs (a ∷ []),
    entries_of-append a b,
    append-nil (entries_of is_space a),
    append_assoc (entries_of is_space a) (entries_of is_space b) [],
    append_assoc (entries is_space vs) (entries_of is_space a) (entries_of is_space b ++ []),
  )

module _ {Address Network : Type 0} (is_space : ℕ → Bool) (ip_address : Text → Option Address)
    (ipv4_mapped : Address → Option Address) (to_text : Address → Text)
    (is_in : Address → Network → Bool) where
  by_header-same :
      (conn : Connection) (vs ws : List Text) (name : Text) (o : Option Text)
      → by_header is_space ip_address ipv4_mapped to_text is_in
          (record conn { forwarded_for = vs })
          name
          o
        ≡ by_header is_space ip_address ipv4_mapped to_text is_in
            (record conn { forwarded_for = ws })
            name
            o
  unfolding by_header
  by_header-same conn vs ws [] o = refl
  by_header-same conn vs ws (c ∷ cs) o = refl

  client_ip_of-same :
      (settings : Settings Network) (conn : Connection) (vs ws : List Text) (o : Option Bool)
      → from_right settings.trusted_proxy_hops (entries is_space vs)
        ≡ from_right settings.trusted_proxy_hops (entries is_space ws)
      → client_ip_of is_space ip_address ipv4_mapped to_text is_in settings
          (record conn { forwarded_for = vs })
          o
        ≡ client_ip_of is_space ip_address ipv4_mapped to_text is_in settings
            (record conn { forwarded_for = ws })
            o
  unfolding client_ip_of forwarded
  client_ip_of-same settings conn vs ws none e = refl
  client_ip_of-same settings conn vs ws (some false) e = refl
  client_ip_of-same settings conn vs ws (some true) e = ap some (
      by_header-same conn vs ws (strip is_space settings.trusted_proxy_client_ip_header) _
      ∙ ap
          (λ x.
            by_header is_space ip_address ipv4_mapped to_text is_in
              (record conn { forwarded_for = ws })
              (strip is_space settings.trusted_proxy_client_ip_header)
              (or_direct (parse_ip is_space ip_address ipv4_mapped to_text is_in x)
                (parse_ip is_space ip_address ipv4_mapped to_text is_in conn.host)))
          e)

  -- If the last X-Forwarded-For value has, after a comma, at least as many entries as the hops that
  -- are trusted, whatever stands before that comma and in the values before it leaves the address
  -- as it is.
  pub client_ip-spoofed :
      (settings : Settings Network) (conn : Connection) (spoofed : List Text)
      (client proxies : Text)
      → settings.trusted_proxy_hops ≤ length (entries is_space (proxies ∷ []))
      → client_ip is_space ip_address ipv4_mapped to_text is_in settings
          (some (record conn { forwarded_for = spoofed ++ (client ++ comma ∷ proxies) ∷ [] }))
        ≡ client_ip is_space ip_address ipv4_mapped to_text is_in settings
            (some (record conn { forwarded_for = proxies ∷ [] }))
  unfolding client_ip client_ip_of forwarded is_trusted_proxy_peer
  client_ip-spoofed settings conn spoofed client proxies h =
      client_ip_of-same settings conn (spoofed ++ (client ++ comma ∷ proxies) ∷ []) (proxies ∷ [])
        (is_trusted_proxy_peer is_space ip_address ipv4_mapped to_text is_in settings conn)
        (ap (from_right settings.trusted_proxy_hops)
            (entries-spoofed is_space spoofed client proxies)
          ∙ from_right-append settings.trusted_proxy_hops
              (entries is_space (spoofed ++ client ∷ [])) (entries is_space (proxies ∷ [])) h)
