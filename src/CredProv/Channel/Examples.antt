-- ===== src/CredProv/Channel/Examples.antt =====
-- A Windows host on which UTF-8 is ASCII, and a message of the agent.
use ovirt_guest_agent.Prelude.{
  ◌≢◌, refl, true, some, arith, Bytes, codes, take, replicate, All, NonZero,
}
use ovirt_guest_agent.CredProv.Channel.{Wide, Host}
use ovirt_guest_agent.CredProv.Channel.Message.{Converts}

abbrev pub host : Host
host = record { local_alloc = λ n. true; to_wide = λ bs n cch. some (take n bs) }

abbrev pub decode : Bytes → Wide
decode bs = bs

pub host-Converts : Converts host decode
host-Converts bs n cch h l = refl

abbrev pub user : Wide
user = codes "eve"

abbrev pub domain : Wide
domain = codes "lab"

abbrev pub secret : Wide
secret = codes "secret"

-- What the pipe's buffer holds behind the message.
abbrev pub rest : Bytes
rest = replicate 1006 0

pub user-NonZero : All NonZero user
user-NonZero = ground arith

pub domain-NonZero : All NonZero domain
domain-NonZero = ground arith

pub secret-NonZero : All NonZero secret
secret-NonZero = ground arith

pub user_without_at : All (λ u. u ≢ b'@') user
user_without_at = ground arith
