-- ===== src/PamOvirtCred/CredChannel/Tests.antt =====
-- The exchange with the agent on concrete messages.
use ovirt_guest_agent.Prelude.{◌≡◌, refl, [], ◌∷◌, ◌++◌, arith, codes}
use ovirt_guest_agent.PamOvirtCred.CredChannel.{
  ok, fault, parsed, load_int, strip_domain, parse_credentials_buffer, acquire_user_credentials,
}
use ovirt_guest_agent.PamOvirtCred.CredChannel.Parse.{pack, parse-pack, parse_confined}
use ovirt_guest_agent.PamOvirtCred.CredChannel.Overread.{parse_overreads}
use ovirt_guest_agent.PamOvirtCred.CredChannel.Acquire.{Ensures, Erased, acquire_erases}
use ovirt_guest_agent.PamOvirtCred.CredChannel.Examples.{
  username, password, ticket, host, stack, sys, username-NonZero, password-NonZero,
}

parse-pack_example :
    parse_credentials_buffer host (pack username password ++ 9 ∷ 9 ∷ []) 18
    ≡ ok (parsed (strip_domain host.getpwnam username) password)
parse-pack_example =
    parse-pack host username password (9 ∷ 9 ∷ []) username-NonZero password-NonZero (omega arith)
      refl refl

parse_confined_example :
    parse_credentials_buffer host (pack username password ++ 9 ∷ 9 ∷ []) 18
    ≡ parse_credentials_buffer host (pack username password ++ 5 ∷ 0 ∷ []) 18
unfolding load_int
parse_confined_example =
    parse_confined host (pack username password ++ 9 ∷ 9 ∷ [])
      (pack username password ++ 5 ∷ 0 ∷ []) 18 7 refl (omega arith) refl (omega arith) refl
      (omega arith) refl refl

parse_overreads_example : parse_credentials_buffer host (0 ∷ 0 ∷ 1 ∷ 0 ∷ codes "eve") 7 ≡ fault
unfolding load_int
parse_overreads_example =
    parse_overreads host 0 0 1 0 (codes "eve") 7 256 refl (omega arith) (omega arith) (omega arith)
      (omega arith) (ground arith) refl

acquire_erases_example : Ensures (Erased 3 stack) (acquire_user_credentials sys host stack ticket)
acquire_erases_example = acquire_erases sys host stack ticket 3 refl
