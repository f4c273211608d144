-- ===== src/PamOvirtCred/Authenticate.antt =====
-- pam-ovirt-cred/pam_ovirt_cred.c. The PAM library is an argument; the handle is the two items that
-- the module writes.
pub mod Access
pub mod Releases
pub mod Accepts
mod Tests
use ovirt_guest_agent.Prelude.{
  Bool, true, false, not, Option, none, some, List, [], ◌∷◌, ◌++◌, Bytes, str_eq, if◌then◌else◌,
}
use ovirt_guest_agent.PamOvirtCred.CredChannel.{
  Outcome, ok, fault, blocked, ◌>>=◌, Sys, Host, Parsed, parsed, unparsed, Acquired,
  acquire_user_credentials,
}
use Prim.Native.Nat.{ℕ}

-- The return codes that the module names, and those that the library may answer besides.
pub data PamRet : Type 0 where
  pam_success pam_user_unknown pam_cred_unavail : PamRet
  pam_other : ℕ → PamRet

pub data Item : Type 0 where
  pam_user pam_authtok : Item

-- What the PAM library answers: to the prompt, to the question for the preset user, and to a new
-- value of an item.
pub record Pam : Type 0 where
  pub prompt : PamRet × Option Bytes
  pub get_user : PamRet × Option Bytes
  pub set_item : Item → Bytes → PamRet

pub record Handle : Type 0 where
  pub user : Option Bytes
  pub authtok : Option Bytes

-- What the cleanup at the end does, in its order.
pub data Cleanup : Type 0 where
  free_token overwrite_password drop_password drop_username : Bytes → Cleanup

pub record Done : Type 0 where
  pub retval : PamRet
  pub handle : Handle
  pub cleanup : List Cleanup

abbrev pub is_success : PamRet → Bool
is_success pam_success = true
is_success _ = false

abbrev free_all : Option Bytes → List Cleanup
free_all none = []
free_all (some token) = free_token token ∷ []

abbrev pub drop_all : Parsed → List Cleanup
drop_all unparsed = []
drop_all (parsed username password) =
    overwrite_password password ∷ drop_password password ∷ drop_username username ∷ []

-- A preset user that differs from the user retrieved; a preset that cannot be read is none.
abbrev pub conflicts : PamRet × Option Bytes → Bytes → Bool
conflicts (pam_success, some preset) username = not (str_eq username preset)
conflicts (_, _) username = false

-- pam_set_item() for the user name, then for the password.
hand_over : Pam → Handle → Bytes → Bytes → PamRet × Handle
hand_over pam h username password =
    let r = pam.set_item pam_user username in
    let s = pam.set_item pam_authtok password in
    let h' = record h { user = some username } in
    if not (is_success r)
    then (r, h)
    else if not (is_success s)
    then (s, h')
    else (pam_success, record h' { authtok = some password })

-- From the answer of acquire_user_credentials() on.
pub check_and_set : Pam → Handle → Parsed → PamRet × Handle
check_and_set pam h unparsed = (pam_user_unknown, h)
check_and_set pam h (parsed username password) =
    if conflicts pam.get_user username
    then (pam_cred_unavail, h)
    else hand_over pam h username password

pub after_acquire : Pam → Handle → Bytes → Acquired → Outcome Done
after_acquire pam h token a =
    let (retval, h') = check_and_set pam h a.result in
    ok (record { retval = retval; handle = h'; cleanup = free_token token ∷ drop_all a.result })

retrieve : Pam → Sys → Host → Bytes → Handle → Bytes → Outcome Done
retrieve pam sys host stack h token = do
  a ← acquire_user_credentials sys host stack token
  after_acquire pam h token a

give_up : Handle → Option Bytes → Outcome Done
give_up h token = ok (record { retval = pam_user_unknown; handle = h; cleanup = free_all token })

prompted : Pam → Sys → Host → Bytes → Handle → PamRet × Option Bytes → Outcome Done
prompted pam sys host stack h (r, none) = give_up h none
prompted pam sys host stack h (r, some token) =
    if is_success r then retrieve pam sys host stack h token else give_up h (some token)

-- The whole of the entry point.
pub pam_sm_authenticate : Pam → Sys → Host → Bytes → Handle → Outcome Done
pam_sm_authenticate pam sys host stack h = prompted pam sys host stack h pam.prompt

pub pam_sm_setcred : Handle → PamRet × Handle
pam_sm_setcred h = (pam_success, h)
