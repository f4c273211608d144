-- ===== src/CredProv/Provider/Tests.antt =====
-- A provider that is handed out and advised twice, and one without a pipe.
use ovirt_guest_agent.Prelude.{here, next, ◌≤◌, ◌≡◌, refl, true, arith}
use ovirt_guest_agent.CredProv.Channel.{invalid, null}
use ovirt_guest_agent.CredProv.Credentials.{credential_provider}
use ovirt_guest_agent.CredProv.Provider.{
  Provider, new, Resources, advise, release_events, release, query, add_ref,
}
use ovirt_guest_agent.CredProv.Provider.References.{
  taken, given_back, Reach, advised, queries, releases, release_balanced,
}

-- The pipe's name is taken.
abbrev no_pipe : Resources
no_pipe = record { credentials_memory = true; channel_memory = true; pipe = invalid; thread = null }

-- The reference of the constructor is given back once a client has asked for its own.
abbrev asked : Provider
asked = (query (new 0) credential_provider true).0

abbrev handed_out : Provider
handed_out = (release asked).0.provider

two_references : 2 ≤ asked.refs
unfolding query add_ref new
two_references = omega arith

abbrev twice_advised : Provider
twice_advised = (advise (advise handed_out 7 1).0 8 2).0

abbrev run : Reach (new 0) twice_advised
run =
    next
      (next
        (next (next here (queries credential_provider true refl)) (releases two_references refl))
        (advised 7 1 refl))
      (advised 8 2 refl)

one_reference : twice_advised.refs ≡ 1
unfolding advise new release_events query add_ref release
one_reference = refl

release_balanced_example :
    ((release twice_advised).0.provider.deleted ≡ true)
    × (taken 7 (release twice_advised).0.provider.calls
        ≡ given_back 7 (release twice_advised).0.provider.calls)
release_balanced_example = release_balanced 0 run one_reference 7
