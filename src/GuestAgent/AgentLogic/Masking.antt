-- ===== src/GuestAgent/AgentLogic/Masking.antt =====
-- The credentials in the log.
use mathlib.Core.List.{append_assoc}
use native.Mathlib.Nat.{add_comm}
use ovirt_guest_agent.PamOvirtCred.CredChannel.{load_int}
use ovirt_guest_agent.Prelude.{
  ℕ, ◌+◌, ◌-◌, ◌^◌, ◌<◌, ◌≡◌, refl, sym, ap, ◌∙◌, some, [], ◌∷◌, ◌++◌, Bytes, arith, length,
  length-append, take, drop, replicate, take-append, drop-append,
}
use ovirt_guest_agent.PamOvirtCred.CredChannel.Parse.{pack, store_int, load-store_int}
use ovirt_guest_agent.GuestAgent.AgentLogic.{safe_creds}

-- The message without its password.
abbrev pub masked : Bytes → Bytes
masked username = (store_int (length username) ++ username) ++ replicate 8 b'*' ++ 0 ∷ []

-- Credentials of a head, the password and a last byte.
masks :
    (creds head password : Bytes) (n : ℕ)
    → load_int creds ≡ some n
    → creds ≡ (head ++ password) ++ 0 ∷ []
    → length head ≡ n + 4
    → safe_creds creds ≡ some (head ++ replicate 8 b'*' ++ 0 ∷ [])
unfolding safe_creds
masks creds head password n load parts size = rw (safe_creds, load, front, back) refl
  where
    index : n + 4 + length creds - (n + 4 + 1) ≡ length (head ++ password)
    index = omega (arith, ap length parts, length-append (head ++ password) (0 ∷ []))

    front : take (n + 4) creds ≡ head
    front =
        ap (λ k. take k creds) (sym size)
        ∙ ap (take (length head)) (parts ∙ append_assoc head password (0 ∷ []))
        ∙ take-append head (password ++ 0 ∷ [])

    back : drop (n + 4 + length creds - (n + 4 + 1)) creds ≡ 0 ∷ []
    back =
        ap (λ k. drop k creds) index
        ∙ ap (drop (length (head ++ password))) parts
        ∙ drop-append (head ++ password) (0 ∷ [])

-- What is logged of packed credentials is the user name, stars, and the last byte: nothing of the password, its
-- length neither.
pub safe_creds_masks :
    (username password : Bytes)
    → length username < 2 ^ 32
    → safe_creds (pack username password) ≡ some (masked username)
safe_creds_masks username password short =
    masks (pack username password) (store_int (length username) ++ username) password
      (length username) (load-store_int (length username) (username ++ (password ++ 0 ∷ [])) short)
      (sym (
        append_assoc (store_int (length username)) (username ++ password) (0 ∷ [])
        ∙ ap (λ x. store_int (length username) ++ x) (append_assoc username password (0 ∷ []))))
      (length-append (store_int (length username)) username ∙ add_comm 4 (length username))
