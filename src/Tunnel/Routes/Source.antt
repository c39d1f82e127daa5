-- ===== src/Tunnel/Routes/Source.antt =====
-- internal/tunnel/managed_server.go: `isSourceAllowed`, and its copy `isSourceAllowedForRoute` in
-- internal/tunnel/quic_server.go. The parsers of package net are arguments: `parse_cidr` gives the
-- addresses that a prefix contains.
use go_proxy_server.Prelude.{
  ℕ, ◌≡◌, refl, ◌↔◌, ◌⊎◌, inl, inr, Bool, true, false, ◌&&◌, not, if◌then◌else◌, List, [], ◌∷◌,
  Option, none, some, some-injective, Bytes, get_elem?, zero, suc, Bool-cases, arith,
}
use go_proxy_server.Prelude.Strings.{is_empty}

pub record NetParsers : Type 0 where
  pub split_host_port : Bytes → Option (Bytes × Bytes)
  pub parse_ip : Bytes → Option Bytes
  pub parse_cidr : Bytes → Option (Bytes → Bool)
  pub equal : Bytes → Bytes → Bool

module _ (net : NetParsers) where
  -- The address of the other end, if it is one.
  unfoldable pub source_ip : Bytes → Option Bytes
  source_ip addr = elim (net.split_host_port addr) [ none ↦ none | some h ↦ net.parse_ip h.0 ]

  abbrev pub is_allowed_ip : Bytes → Option Bytes → Bool
  is_allowed_ip ip none = false
  is_allowed_ip ip (some allowed) = net.equal allowed ip

  -- An entry that is not blank matches, as a prefix or else as an address.
  unfoldable pub entry_matches : Bytes → Bytes → Bool
  entry_matches ip entry = elim (net.parse_cidr entry) [
    | some contains ↦ contains ip
    | none ↦ is_allowed_ip ip (net.parse_ip entry)
  ]

  -- The loop over the whitelist.
  unfoldable pub match_loop : Bytes → List Bytes → Bool
  unfolding entry_matches
  match_loop ip [] = false
  match_loop ip (entry ∷ entries) =
      let rest = match_loop ip entries in
      if is_empty entry then rest else if entry_matches ip entry then true else rest

  abbrev pub match_source : List Bytes → Option Bytes → Bool
  match_source whitelist none = false
  match_source whitelist (some ip) = match_loop ip whitelist

  -- `isSourceAllowed`
  unfoldable pub is_source_allowed : List Bytes → Bytes → Bool
  unfolding match_loop source_ip
  is_source_allowed [] addr = true
  is_source_allowed (entry ∷ entries) addr = match_source (entry ∷ entries) (source_ip addr)

  -- An entry that an address is in: a prefix that contains it, or else, if it is no prefix, an
  -- address that is equal to it.
  abbrev pub Covers : Bytes → Bytes → Type 0
  Covers entry ip =
      ((contains : Bytes → Bool) × (net.parse_cidr entry ≡ some contains) × (contains ip ≡ true))
      ⊎ ((net.parse_cidr entry ≡ none)
          × ((allowed : Bytes) × (net.parse_ip entry ≡ some allowed)
              × (net.equal allowed ip ≡ true)))

  -- A whitelist has an entry that is not blank and that an address is in.
  abbrev pub Lets : Bytes → List Bytes → Type 0
  Lets ip whitelist =
      (i : ℕ) × (entry : Bytes) × (get_elem? whitelist i ≡ some entry)
      × (is_empty entry ≡ false)
      × Covers entry ip

  -- The text of a source is a host and a port, and the host is an address.
  abbrev pub From : Bytes → Bytes → Type 0
  From addr ip =
      (host : Bytes) × (port : Bytes) × (net.split_host_port addr ≡ some (host, port))
      × (net.parse_ip host ≡ some ip)

  entry_matches-Covers : (entry ip : Bytes) → entry_matches ip entry ≡ true → Covers entry ip
  unfolding entry_matches
  entry_matches-Covers entry ip e =
      by_prefix (net.parse_cidr entry) (net.parse_ip entry) refl refl e
    where
      by_prefix :
          (p : Option (Bytes → Bool)) (o : Option Bytes)
          → net.parse_cidr entry ≡ p
          → net.parse_ip entry ≡ o
          → (elim p [ some contains ↦ contains ip | none ↦ is_allowed_ip ip o ]) ≡ true
          → Covers entry ip
      by_prefix (some contains) o at at_ip e = inl (contains, at, e)
      by_prefix none (some allowed) at at_ip e = inr (at, (allowed, at_ip, e))
      by_prefix none none at at_ip e = absurd (ground arith)

  Covers-entry_matches : (entry ip : Bytes) → Covers entry ip → entry_matches ip entry ≡ true
  unfolding entry_matches
  Covers-entry_matches entry ip (inl (contains, at, e)) = rw (at, entry_matches) e
  Covers-entry_matches entry ip (inr (at, (allowed, at_ip, e))) = rw (at, entry_matches, at_ip) e

  match_loop-Lets :
      (ip : Bytes) (whitelist : List Bytes) → match_loop ip whitelist ≡ true → Lets ip whitelist
  unfolding match_loop
  match_loop-Lets ip [] e = absurd (ground arith)
  match_loop-Lets ip (x ∷ xs) e = elim (Bool-cases (not (is_empty x) && entry_matches ip x)) [
    | inl hit ↦ (0, x, refl, ground arith, entry_matches-Covers x ip (ground arith))
    | inr miss ↦
        let (i, entry, at, full, good) = match_loop-Lets ip xs (ground arith) in
        (suc i, entry, at, full, good)
  ]

  Lets-match_loop :
      (ip : Bytes) (whitelist : List Bytes) → Lets ip whitelist → match_loop ip whitelist ≡ true
  unfolding match_loop
  Lets-match_loop ip [] (i, entry, at, full, good) = absurd (ground arith)
  Lets-match_loop ip (x ∷ xs) (zero, entry, at, full, good) =
      let is_x : x ≡ entry = some-injective x entry at in
      let hit : entry_matches ip x ≡ true = rw (is_x) (Covers-entry_matches entry ip good) in
      let full_x : is_empty x ≡ false = rw (is_x) full in ground arith
  Lets-match_loop ip (x ∷ xs) (suc i, entry, at, full, good) =
      ground (arith, Lets-match_loop ip xs (i, entry, at, full, good))

  source_ip-From : (addr ip : Bytes) → source_ip addr ≡ some ip → From addr ip
  unfolding source_ip
  source_ip-From addr ip e = by_split (net.split_host_port addr) refl e
    where
      by_split :
          (o : Option (Bytes × Bytes))
          → net.split_host_port addr ≡ o
          → ◌≡◌ {A = Option Bytes} (elim o [ none ↦ none | some h ↦ net.parse_ip h.0 ]) (some ip)
          → From addr ip
      by_split none at e = absurd (ground arith)
      by_split (some (host, port)) at e = (host, port, at, e)

  From-source_ip : (addr ip : Bytes) → From addr ip → source_ip addr ≡ some ip
  unfolding source_ip
  From-source_ip addr ip (host, port, at, e) = rw (at, source_ip) e

  match_source-Lets :
      (whitelist : List Bytes) (addr : Bytes) (o : Option Bytes)
      → source_ip addr ≡ o
      → match_source whitelist o ≡ true
      → (ip : Bytes) × From addr ip × Lets ip whitelist
  match_source-Lets whitelist addr none at e = absurd (ground arith)
  match_source-Lets whitelist addr (some ip) at e =
      (ip, source_ip-From addr ip at, match_loop-Lets ip whitelist e)

  -- A source is let in by a route with a whitelist exactly if its text is a host and a port, the host
  -- is an address, and an entry that is not blank is a prefix that contains the address, or is no
  -- prefix but an address that is equal to it.
  pub is_source_allowed_iff :
      (entry : Bytes) (entries : List Bytes) (addr : Bytes)
      → is_source_allowed (entry ∷ entries) addr ≡ true
        ↔ ((ip : Bytes) × From addr ip × Lets ip (entry ∷ entries))
  unfolding is_source_allowed
  is_source_allowed_iff entry entries addr = (
    match_source-Lets (entry ∷ entries) addr (source_ip addr) refl,
    λ (ip, from, lets).
        rw (From-source_ip addr ip from) (Lets-match_loop ip (entry ∷ entries) lets),
  )
