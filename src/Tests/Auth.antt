-- ===== src/Tests/Auth.antt =====
-- internal/auth at concrete inputs, with a toy digest.
use go_proxy_server.Prelude.{
  ◌-◌, ◌*◌, ◌/◌, ◌≡◌, refl, ◌↔◌, ◌≤◌, true, List, [], ◌∷◌, ◌++◌, some, some-injective, subst,
  bytes_dec, Bytes, codes, ok, err, length, arith,
}
use go_proxy_server.Prelude.Hex.{IsBytes}
use go_proxy_server.Prelude.Strings.{same}
use go_proxy_server.Prelude.GoMap.{lookup, insert}
use go_proxy_server.Auth.Hash.{hash_password, verify_hash, hash_password_with_salt}
use go_proxy_server.Auth.Hash.Codec.{verify_hash-hash_password_with_salt}
use go_proxy_server.Auth.Users.{
  Outcome, add_hashed, inserted, after_insert, load_credentials, load_rows, load_loop, scan,
  deleted, User, State, add_user, delete_user, verify_credentials, validate_password_strength,
  invalid_credentials, exists_already, is_letter, is_digit,
}
use go_proxy_server.Auth.Users.Strength.{any, validate_password_strength_iff}
use go_proxy_server.Auth.Users.Laws.{
  delete_user-refused, add_user-verify_credentials, add_user-rolls_back,
}
use go_proxy_server.Auth.Whitelist
use go_proxy_server.Auth.Whitelist.{
  check_ip_whitelist, add_ip, delete_ip, load_whitelist, store_rows, fill,
}
use go_proxy_server.Auth.Whitelist.InStep.{InStep, add_ip-InStep}
use go_proxy_server.Tests.Database.{has_key, without, memory, memory-IsTable}

-- The length of the input, as one byte.
abbrev digest : Bytes → Bytes
digest s = (length s - length s / 256 * 256) ∷ []

digest-IsBytes : (s : Bytes) → IsBytes (digest s)
digest-IsBytes s = (omega arith, tt)

verify_hash-hash_password_with_salt_example :
    verify_hash digest
      (hash_password_with_salt digest (codes "secret12") (1 ∷ 255 ∷ []))
      (codes "other")
    ≡ same (digest ((1 ∷ 255 ∷ []) ++ codes "other")) (digest ((1 ∷ 255 ∷ []) ++ codes "secret12"))
verify_hash-hash_password_with_salt_example =
    verify_hash-hash_password_with_salt digest (codes "secret12") (codes "other") (1 ∷ 255 ∷ [])
      digest-IsBytes (omega arith, (omega arith, tt))

validate_password_strength_iff_example :
    validate_password_strength (codes "secret12") ≡ ok tt
    ↔ (8 ≤ length (codes "secret12"))
      × (length (codes "secret12") ≤ 128)
      × (any is_letter (codes "secret12") ≡ true)
      × (any is_digit (codes "secret12") ≡ true)
validate_password_strength_iff_example = validate_password_strength_iff (codes "secret12")

abbrev key : User → Bytes
key u = u.username

always_deletes :
    {Row : Type 0} (key : Row → Bytes) (d : List Row) (name : Bytes)
    → ((memory key).delete d name).1 ≡ ok tt
unfolding memory
always_deletes key d name = refl

abbrev empty : State (List User)
empty = record { db = []; credentials = [] }

abbrev salt : Bytes
salt = 1 ∷ 2 ∷ []

abbrev ada : User
ada = record {
  ip = [];
  username = codes "ada";
  password = hash_password_with_salt digest (codes "secret12") salt;
}

abbrev one_user : State (List User)
one_user = record { db = ada ∷ []; credentials = (codes "ada", ada.password) ∷ [] }

added :
    add_user (memory key) digest (some salt) empty [] (codes "ada") (codes "secret12")
    ≡ (one_user, ok tt)
unfolding add_user add_hashed inserted after_insert load_credentials load_rows load_loop
    validate_password_strength scan hash_password hash_password_with_salt memory has_key same
    bytes_dec lookup insert
added = refl

add_user-verify_credentials_example :
    verify_credentials digest one_user.credentials (codes "ada") (codes "secret12") ≡ ok tt
add_user-verify_credentials_example =
    add_user-verify_credentials (memory key) (λ d. d) (memory-IsTable key) digest (some salt) empty
      one_user [] (codes "ada") (codes "secret12") digest-IsBytes
      (λ t e. subst IsBytes (some-injective salt t e) (omega arith, (omega arith, tt))) added

added_twice :
    add_user (memory key) digest (some salt) one_user [] (codes "ada") (codes "secret13")
    ≡ (one_user, err exists_already)
unfolding add_user add_hashed inserted after_insert load_credentials load_rows load_loop
    validate_password_strength scan hash_password hash_password_with_salt memory has_key same
    bytes_dec lookup insert
added_twice = refl

add_user-rolls_back_example :
    (one_user.credentials ≡ one_user.credentials) × (one_user.db ≡ one_user.db)
add_user-rolls_back_example =
    add_user-rolls_back (memory key) (λ d. d) (memory-IsTable key) digest (some salt) one_user
      one_user [] (codes "ada") (codes "secret13") exists_already (always_deletes key) added_twice

removed : delete_user (memory key) one_user (codes "ada") ≡ (empty, ok tt)
unfolding delete_user deleted load_credentials load_rows load_loop memory without bytes_dec
removed = refl

delete_user-refused_example :
    verify_credentials digest empty.credentials (codes "ada") (codes "secret12")
    ≡ err invalid_credentials
delete_user-refused_example =
    delete_user-refused (memory key) (λ d. d) (memory-IsTable key) digest one_user empty
      (codes "ada") (codes "secret12") removed

abbrev no_ips : Whitelist.State (List Bytes)
no_ips = record { db = []; whitelist = [] }

abbrev one_ip : Whitelist.State (List Bytes)
one_ip = record { db = codes "10.0.0.1" ∷ []; whitelist = (codes "10.0.0.1", true) ∷ [] }

no_ips-InStep : InStep (memory (λ ip. ip)) (λ d. d) (memory-IsTable (λ ip. ip)) no_ips
unfolding check_ip_whitelist lookup
no_ips-InStep ip = refl

ip_added : add_ip (memory (λ ip. ip)) some no_ips (codes "10.0.0.1") ≡ (one_ip, ok tt)
unfolding add_ip delete_ip Whitelist.deleted Whitelist.inserted Whitelist.after_insert
    load_whitelist store_rows fill memory has_key same without bytes_dec insert
ip_added = refl

add_ip-InStep_example :
    InStep (memory (λ ip. ip)) (λ d. d) (memory-IsTable (λ ip. ip)) one_ip
    × (◌≡◌ {A = Outcome} (ok tt) (ok tt)
        → check_ip_whitelist one_ip.whitelist (codes "10.0.0.1") ≡ true)
add_ip-InStep_example =
    add_ip-InStep (memory (λ ip. ip)) (λ d. d) (memory-IsTable (λ ip. ip)) some no_ips one_ip
      (codes "10.0.0.1") (ok tt) (always_deletes (λ ip. ip)) no_ips-InStep ip_added

ip_removed : delete_ip (memory (λ ip. ip)) one_ip (codes "10.0.0.1") ≡ (no_ips, ok tt)
unfolding add_ip delete_ip Whitelist.deleted Whitelist.inserted Whitelist.after_insert
    load_whitelist store_rows fill memory has_key same without bytes_dec insert
ip_removed = refl
