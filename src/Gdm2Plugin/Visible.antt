-- ===== src/Gdm2Plugin/Visible.antt =====
-- gdm_ovirtcred_extension_is_visible() of gdm2-plugin/gdm-ovirtcred-extension.c; atoi() and "%d" are those
-- of GdmPlugin.Visible.
use ovirt_guest_agent.Prelude.{
  Bool, true, false, not, Option, none, some, ◌≡◌, refl, ◌++◌, Bytes, codes, ◌==◌, if◌then◌else◌,
}
use ovirt_guest_agent.GdmPlugin.Visible.{atoi, print_number}
use ovirt_guest_agent.GdmPlugin.Visible as GdmPlugin

-- `contents` is what g_file_get_contents() reads, `exists` what g_file_test() says of a path.
pub is_visible : Option Bytes → (Bytes → Bool) → Bool
is_visible none exists = false
is_visible (some contents) exists =
    if (atoi contents).magnitude == 0
    then false
    else if not (exists (codes "/proc/" ++ print_number (atoi contents)))
    then false
    else true

-- Both extensions are visible under the same conditions.
is_visible-same :
    (contents : Option Bytes) (exists : Bytes → Bool)
    → is_visible contents exists ≡ GdmPlugin.is_visible contents exists
unfolding is_visible GdmPlugin.is_visible
is_visible-same none exists = refl
is_visible-same (some contents) exists = refl
