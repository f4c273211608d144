-- ===== src/Gina/Config.antt =====
-- The configuration of GinaSSO/GinaDlg.cpp, read from the registry. Opening the key and looking a value
-- up are arguments.
use ovirt_guest_agent.Prelude.{ℕ, Bool, Option, none, some, Bytes, codes, if◌then◌else◌}

-- struct GlobalConfig, zeroed at the start.
pub record GlobalConfig : Type 0 where
  pub display_sas_notice_dialog : ℕ
  pub logged_out_sas_dialog : ℕ
  pub logged_on_sas_dialog : ℕ
  pub display_locked_notice_dialog : ℕ
  pub logged_out_sas_username : ℕ
  pub logged_out_sas_password : ℕ
  pub logged_out_sas_domain : ℕ
  pub logged_on_sas_username : ℕ
  pub logged_on_sas_password : ℕ
  pub logged_on_sas_domain : ℕ
  pub user_message_dialog : ℕ
  pub restart_credentials_listener : ℕ
  pub present_logon_message : ℕ

abbrev pub unset : GlobalConfig
unset = record {
  display_sas_notice_dialog = 0;
  logged_out_sas_dialog = 0;
  logged_on_sas_dialog = 0;
  display_locked_notice_dialog = 0;
  logged_out_sas_username = 0;
  logged_out_sas_password = 0;
  logged_out_sas_domain = 0;
  logged_on_sas_username = 0;
  logged_on_sas_password = 0;
  logged_on_sas_domain = 0;
  user_message_dialog = 0;
  restart_credentials_listener = 0;
  present_logon_message = 0;
}

-- The answers to the two openings of the key, and to a query.
pub record Registry : Type 0 where
  pub config_opens : Bool
  pub controls_open : Bool
  pub query : Bytes → Option ℕ

-- The value of a successful query, or the default.
pub query_or : Registry → Bytes → ℕ → ℕ
query_or r name default = elim (r.query name) [ none ↦ default | some value ↦ value ]

pub read_original_gina_control_values : Registry → GlobalConfig → GlobalConfig
read_original_gina_control_values r g =
    if r.controls_open
    then record g {
      user_message_dialog = query_or r (codes "IDD_USER_MESSAGE_DIALOG") 2500;
      display_sas_notice_dialog = query_or r (codes "IDD_WLXDISPLAYSASNOTICE_DIALOG") 1400;
      display_locked_notice_dialog = query_or r (codes "IDD_WLXDISPLAYLOCKEDNOTICE_DIALOG") 1900;
      logged_out_sas_dialog = query_or r (codes "IDD_WLXLOGGEDOUTSAS_DIALOG") 1500;
      logged_on_sas_dialog = query_or r (codes "IDD_WLXLOGGEDONSAS_DIALOG") 1950;
      logged_out_sas_username = query_or r (codes "IDC_WLXLOGGEDOUTSAS_USERNAME") 1502;
      logged_out_sas_password = query_or r (codes "IDC_WLXLOGGEDOUTSAS_PASSWORD") 1503;
      logged_out_sas_domain = query_or r (codes "IDC_WLXLOGGEDOUTSAS_DOMAIN") 1504;
      logged_on_sas_username = query_or r (codes "IDC_WLXLOGGEDONSAS_USERNAME") 1953;
      logged_on_sas_password = query_or r (codes "IDC_WLXLOGGEDONSAS_PASSWORD") 1954;
      logged_on_sas_domain = query_or r (codes "IDC_WLXLOGGEDONSAS_DOMAIN") 1956;
    }
    else g

pub read_config_values : Registry → GlobalConfig → GlobalConfig
read_config_values r g = read_original_gina_control_values r (
    if r.config_opens
    then record g {
      restart_credentials_listener = query_or r (codes "RestartCredentialsListening") 1;
      present_logon_message = query_or r (codes "PresentLogonMessage") 1;
    }
    else g)
