-- ===== src/Surface/SshAgent.antt =====
-- SSH agent grants, sshAgentWidenings of spec/ssh_agent.go: "<phase>", "<phase> sign <namespace>" and
-- "<phase> authenticate <[user@]host>".
use sandbox_kit_spec.Base.{
  Bool, false, not, ◌&&◌, ◌||◌, Option, none, some, List, ◌++◌, filter, Text, codes, text_eq,
  has_text, contains, cut, cut_last, cut_prefix, ◌==◌,
}
use sandbox_kit_spec.Surface.{before_cut, after_cut}

-- sshDestinationHost
unfoldable pub ssh_destination_host : Text → Text
unfolding cut_last
ssh_destination_host d = elim (cut_last (λ c. c == b'@') d) [ none ↦ d | some (user, host) ↦ host ]

-- The grant without the user covers the destination.
abbrev pub any_user_granted : List Text → Text → Option Text → Bool
any_user_granted granted phase none = false
any_user_granted granted phase (some d) =
    let host = ssh_destination_host d in
    not (text_eq host d) && has_text granted (phase ++ (codes " authenticate " ++ host))

-- One entry of the candidate is granted: itself, its whole phase, or its host for every user.
unfoldable pub is_granted : List Text → Text → Bool
unfolding has_text filter contains cut cut_prefix ssh_destination_host text_eq
is_granted granted c =
    let unbounded = filter (λ g. not (contains b' ' g)) granted in
    let phase = before_cut b' ' c in
    (has_text granted c || has_text unbounded phase)
    || any_user_granted granted phase (cut_prefix (codes "authenticate ") (after_cut b' ' c))

unfoldable pub ssh_agent_widenings : List Text → List Text → List Text
unfolding is_granted filter
ssh_agent_widenings granted candidate = filter (λ c. not (is_granted granted c)) candidate
