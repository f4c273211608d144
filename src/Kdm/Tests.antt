-- ===== src/Kdm/Tests.antt =====
-- A token that KDM asks for.
use ovirt_guest_agent.Prelude.{◌≡◌, refl, true, codes, here, next, Sublist}
use ovirt_guest_agent.Kdm.{Qt, Greeter, new, text_prompt, user_authenticated}
use ovirt_guest_agent.Kdm.OneTime.{Reach, authenticated, prompts, given, announced, token_one_time}

abbrev qt : Qt
qt = record { contains_any_case = λ s t. true; to_ascii = λ s. s }

abbrev asked : Greeter
asked = text_prompt qt (user_authenticated new (codes "abc")) (codes "token?")

abbrev asking : Reach qt new asked
asking = next (next here (authenticated (codes "abc"))) (prompts (codes "token?"))

token_one_time_example : Sublist (given asked.calls) (announced asking)
token_one_time_example = token_one_time qt refl asked asking

given_once : given asked.calls ≡ announced asking
unfolding text_prompt user_authenticated
given_once = refl
