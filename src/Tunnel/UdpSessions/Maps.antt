-- ===== src/Tunnel/UdpSessions/Maps.antt =====
-- internal/tunnel/quic_server.go: maps of sessions, for the two of a route.
use go_proxy_server.Prelude.{
  ◌≡◌, ◌≢◌, refl, ap, sym, subst, ◌∙◌, [], ◌∷◌, none, some, some-injective, Bytes, bytes_dec, All,
  if_pos, if_neg, arith,
}
use go_proxy_server.Prelude.GoMap.{GoMap, lookup, insert, delete, lookup-delete}
use go_proxy_server.Tunnel.UdpSessions.{UdpSession}

-- No key stands twice.
abbrev pub Distinct : GoMap Bytes UdpSession → Type 0
Distinct [] = Unit {0}
Distinct ((k, x) ∷ m) = All (λ p. p.0 ≢ k) m × Distinct m

insert-All :
    (k j : Bytes) (x : UdpSession) (m : GoMap Bytes UdpSession)
    → k ≢ j
    → All (λ p. p.0 ≢ j) m
    → All (λ p. p.0 ≢ j) (insert bytes_dec k x m)
unfolding insert
insert-All k j x [] n h = (n, tt)
insert-All k j x ((i, y) ∷ m) n (h, hs) = elim (bytes_dec i k) [
  | yes e ↦ rw (if_pos (bytes_dec i k) e ((k, x) ∷ m) ((i, y) ∷ insert bytes_dec k x m)) (n, hs)
  | no q ↦
      rw (if_neg (bytes_dec i k) q ((k, x) ∷ m) ((i, y) ∷ insert bytes_dec k x m))
        (h, insert-All k j x m n hs)
]

pub insert-Distinct :
    (k : Bytes) (x : UdpSession) (m : GoMap Bytes UdpSession)
    → Distinct m
    → Distinct (insert bytes_dec k x m)
unfolding insert
insert-Distinct k x [] h = (tt, tt)
insert-Distinct k x ((i, y) ∷ m) (h, hs) = elim (bytes_dec i k) [
  | yes e ↦
      rw (if_pos (bytes_dec i k) e ((k, x) ∷ m) ((i, y) ∷ insert bytes_dec k x m))
        (subst (λ j. All (λ p. p.0 ≢ j) m) e h, hs)
  | no q ↦
      rw (if_neg (bytes_dec i k) q ((k, x) ∷ m) ((i, y) ∷ insert bytes_dec k x m))
        (insert-All k i x m (λ e. q (sym e)) h, insert-Distinct k x m hs)
]

delete-All :
    (k j : Bytes) (m : GoMap Bytes UdpSession)
    → All (λ p. p.0 ≢ j) m
    → All (λ p. p.0 ≢ j) (delete bytes_dec k m)
unfolding delete
delete-All k j [] h = tt
delete-All k j ((i, y) ∷ m) (h, hs) = elim (bytes_dec i k) [
  | yes e ↦
      rw (if_pos (bytes_dec i k) e (delete bytes_dec k m) ((i, y) ∷ delete bytes_dec k m))
        (delete-All k j m hs)
  | no q ↦
      rw (if_neg (bytes_dec i k) q (delete bytes_dec k m) ((i, y) ∷ delete bytes_dec k m))
        (h, delete-All k j m hs)
]

pub delete-Distinct :
    (k : Bytes) (m : GoMap Bytes UdpSession) → Distinct m → Distinct (delete bytes_dec k m)
unfolding delete
delete-Distinct k [] h = tt
delete-Distinct k ((i, y) ∷ m) (h, hs) = elim (bytes_dec i k) [
  | yes e ↦
      rw (if_pos (bytes_dec i k) e (delete bytes_dec k m) ((i, y) ∷ delete bytes_dec k m))
        (delete-Distinct k m hs)
  | no q ↦
      rw (if_neg (bytes_dec i k) q (delete bytes_dec k m) ((i, y) ∷ delete bytes_dec k m))
        (delete-All k i m h, delete-Distinct k m hs)
]

pub lookup-delete_inv :
    (k j : Bytes) (m : GoMap Bytes UdpSession) (y : UdpSession)
    → lookup bytes_dec j (delete bytes_dec k m) ≡ some y
    → (k ≢ j) × (lookup bytes_dec j m ≡ some y)
lookup-delete_inv k j m y e = elim (bytes_dec k j) [
  | yes p ↦ absurd (ground (arith, lookup-delete bytes_dec k j m))
  | no q ↦ (q, ground (arith, lookup-delete bytes_dec k j m))
]

pub lookup-delete_ne :
    (k j : Bytes) (m : GoMap Bytes UdpSession) (y : UdpSession)
    → k ≢ j
    → lookup bytes_dec j m ≡ some y
    → lookup bytes_dec j (delete bytes_dec k m) ≡ some y
lookup-delete_ne k j m y n e = ground (arith, lookup-delete bytes_dec k j m)

pub one_value :
    (k j : Bytes) (m : GoMap Bytes UdpSession) (x y : UdpSession)
    → k ≡ j
    → lookup bytes_dec k m ≡ some x
    → lookup bytes_dec j m ≡ some y
    → x ≡ y
one_value k j m x y q a b = some-injective x y (sym a ∙ ap (λ i. lookup bytes_dec i m) q ∙ b)

absent :
    (k : Bytes) (m : GoMap Bytes UdpSession) → All (λ p. p.0 ≢ k) m → lookup bytes_dec k m ≡ none
unfolding lookup
absent k [] n = refl
absent k ((i, y) ∷ m) (n, ns) =
    if_neg (bytes_dec i k) n (some y) (lookup bytes_dec k m) ∙ absent k m ns

shadowed :
    (k j : Bytes) (x y : UdpSession) (m : GoMap Bytes UdpSession)
    → lookup bytes_dec k m ≡ none
    → lookup bytes_dec j m ≡ some y
    → lookup bytes_dec j ((k, x) ∷ m) ≡ some y
unfolding lookup
shadowed k j x y m none_there e = elim (bytes_dec k j) [
  | yes p ↦ absurd (ground arith)
  | no q ↦ if_neg (bytes_dec k j) q (some x) (lookup bytes_dec j m) ∙ e
]

pub Distinct-lookup :
    (m whole : GoMap Bytes UdpSession)
    → ((k : Bytes) (y : UdpSession)
        → lookup bytes_dec k m ≡ some y
        → lookup bytes_dec k whole ≡ some y)
    → Distinct m
    → All (λ p. lookup bytes_dec p.0 whole ≡ some p.1) m
unfolding lookup
Distinct-lookup [] whole f d = tt
Distinct-lookup ((k, x) ∷ m) whole f (n, d) = (
  f k x (if_pos (bytes_dec k k) refl (some x) (lookup bytes_dec k m)),
  Distinct-lookup m whole (λ j y e. f j y (shadowed k j x y m (absent k m n) e)) d,
)
