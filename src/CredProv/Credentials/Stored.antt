-- ===== src/CredProv/Credentials/Stored.antt =====
-- What the credential stores, and what it leaves behind.
use ovirt_guest_agent.Prelude.{
  ◌≡◌, refl, ◌⊎◌, inl, inr, true, Option, none, some, ◌∷◌, arith, length, replicate, Bool-cases,
  Option-cases,
}
use ovirt_guest_agent.CredProv.Channel.{Wide}
use ovirt_guest_agent.CredProv.Channel.Message.{zero_bytes_all}
use ovirt_guest_agent.CredProv.Credentials.{
  Credentials, Host, got_credentials, free_username, free_password, free_domain, reset_credentials,
  wcsdup, copy, pick_domain, fill, keep_whole, set_credentials, delete, release,
}

-- None of the three strings is stored.
pub record Blank (c : Credentials) : Type 0 where
  pub username_none : c.username ≡ none
  pub password_none : c.password ≡ none
  pub domain_none : c.domain ≡ none

-- A user name, a password and a domain are stored.
pub record Full (c : Credentials) : Type 0 where
  pub username : Wide
  pub password : Wide
  pub domain : Wide
  pub username_eq : c.username ≡ some username
  pub password_eq : c.password ≡ some password
  pub domain_eq : c.domain ≡ some domain

-- All three strings are stored, or none.
pub Whole : Credentials → Type 0
Whole c = Full c ⊎ Blank c

got_credentials-Full : (c : Credentials) → got_credentials c ≡ true → Full c
unfolding got_credentials
got_credentials-Full c full = elim (Option-cases c.username) [
  | inl n ↦ absurd (ground (arith, n, full))
  | inr (u, su) ↦ elim (Option-cases c.password) [
    | inl n ↦ absurd (ground (arith, n, full))
    | inr (p, sp) ↦ elim (Option-cases c.domain) [
      | inl n ↦ absurd (ground (arith, n, full))
      | inr (d, sd) ↦ record {
        username = u;
        password = p;
        domain = d;
        username_eq = su;
        password_eq = sp;
        domain_eq = sd;
      }
    ]
  ]
]

reset-Blank : (c : Credentials) → Blank (reset_credentials c)
unfolding reset_credentials free_username free_password free_domain
reset-Blank c = record {
  username_none = ground arith;
  password_none = ground arith;
  domain_none = ground arith;
}

keep_whole-Whole : (c : Credentials) → Whole (keep_whole c)
unfolding Whole
keep_whole-Whole c = elim (Bool-cases (got_credentials c)) [
  | inl full ↦ rw full (inl (got_credentials-Full c full))
  | inr part ↦ rw part (inr (reset-Blank c))
]

-- However the copies turn out, all three strings are stored afterwards or none of them.
pub set_credentials-Whole :
    (host : Host) (c : Credentials) (username password domain : Option Wide)
    → Whole (set_credentials host c username password domain)
unfolding set_credentials
set_credentials-Whole host c username password domain =
    keep_whole-Whole (fill host (reset_credentials c) username password domain)

-- Where user name and password are given and every copy is made, the strings stored are those
-- given, with the computer's name in place of a domain that is missing.
pub set_credentials_stores :
    (host : Host) (c : Credentials) (username password name : Wide) (domain : Option Wide)
    → host.dup_username ≡ true
    → host.dup_password ≡ true
    → host.dup_domain ≡ true
    → (domain ≡ some name) ⊎ ((domain ≡ none) × (host.computer_name ≡ some name))
    → let stored = set_credentials host c (some username) (some password) domain in
      (got_credentials stored ≡ true)
      × (stored.username ≡ some username)
      × (stored.password ≡ some password)
      × (stored.domain ≡ some name)
unfolding set_credentials fill got_credentials copy pick_domain wcsdup
set_credentials_stores host c username password name domain u p d n = elim n [
  | inl given ↦ rw (given, u, p, d) (refl, refl, refl, refl)
  | inr (missing, computer) ↦ rw (missing, computer, u, p, d) (refl, refl, refl, refl)
]

-- The release of the only reference to a credential that holds its three strings deletes it and
-- stores none of them; the block of the password goes back to the heap as zeros, every unit of it,
-- those of user name and domain as they are.
pub release_erases :
    (c : Credentials) (username password domain : Wide)
    → c.refs ≡ 1
    → c.username ≡ some username
    → c.password ≡ some password
    → c.domain ≡ some domain
    → ((release c).0.deleted ≡ true)
      × Blank (release c).0
      × ((release c).0.freed ≡ domain ∷ replicate (length password) 0 ∷ username ∷ c.freed)
unfolding release delete reset_credentials free_username free_password free_domain
release_erases c username password domain r u p d =
    rw (r, u, p, d)
      (
        refl,
        record { username_none = refl; password_none = refl; domain_none = refl },
        rw (zero_bytes_all password) refl,
      )
