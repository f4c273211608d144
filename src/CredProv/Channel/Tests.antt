-- ===== src/CredProv/Channel/Tests.antt =====
-- A message and the life of a channel.
use ovirt_guest_agent.Prelude.{◌≡◌, refl, true, none, [], ◌∷◌}
use ovirt_guest_agent.PamOvirtCred.CredChannel.{ok}
use ovirt_guest_agent.CredProv.Channel.{
  invalid, null, handle, close_handle, terminate_thread, disconnect_named_pipe, Channel, init,
  create_channel, destroy_channel, Client, wait_read, credentials_channel_wait, wait_end,
}
use ovirt_guest_agent.CredProv.Channel.Lifecycle.{closed, wait-destroy}
use ovirt_guest_agent.CredProv.Channel.Examples.{host}

-- Nobody connects.
abbrev nobody : Client
nobody = record { connected = true; read = none }

abbrev waited : Channel
waited = wait_end (create_channel init 1 (handle 5) (handle 6)).0

wait_over :
    credentials_channel_wait host nobody (create_channel init 1 (handle 5) (handle 6)).0
    ≡ ok (waited, none)
unfolding credentials_channel_wait create_channel wait_read
wait_over = refl

wait-destroy_example :
    (closed waited.calls ≡ handle 5 ∷ [])
    × ((destroy_channel waited).calls
        ≡ disconnect_named_pipe invalid ∷ close_handle null ∷ terminate_thread null ∷ waited.calls)
wait-destroy_example = wait-destroy host nobody 1 5 6 waited none wait_over
