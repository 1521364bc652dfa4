-- ===== src/Surface/Diff.antt =====
-- DiffWidenings of spec/surface.go.
pub mod Within
pub mod Unchanged
use sandbox_kit_spec.Base.{
  Bool, true, false, not, ◌&&◌, List, [], ◌∷◌, ◌++◌, map, Text, codes, if◌then◌else◌,
}
use sandbox_kit_spec.Surface.{Surface, Widening, missing_from}
use sandbox_kit_spec.Surface.Http.{http_widenings, http_deny_removals, complete_http_grants}
use sandbox_kit_spec.Surface.SshAgent.{ssh_agent_widenings}

-- add
abbrev pub widenings : Text → List Text → List Widening
widenings category details = map (λ d. record { category = category; detail = d }) details

abbrev pub privileged_widening : Bool → Bool → List Widening
privileged_widening granted candidate =
    if not granted && candidate
    then record { category = codes "privileged"; detail = codes "requests privileged execution" }
      ∷ []
    else []

abbrev pub connection_widenings : Surface → Surface → List Widening
connection_widenings g c =
    widenings (codes "network.install.allow")
      (missing_from g.network_install_allow c.network_install_allow)
    ++ (widenings (codes "network.runtime.allow")
          (missing_from g.network_runtime_allow c.network_runtime_allow)
        ++ (widenings (codes "network.install.deny-removed")
              (missing_from c.network_install_deny g.network_install_deny)
            ++ widenings (codes "network.runtime.deny-removed")
                (missing_from c.network_runtime_deny g.network_runtime_deny)))

abbrev pub request_widenings : Surface → Surface → List Widening
request_widenings g c =
    widenings (codes "network.install.http.allow") (
      http_widenings g.network_install_allow c.network_install_allow
        (complete_http_grants g.network_install_allow g.network_install_http_allow)
        c.network_install_http_allow)
    ++ (widenings (codes "network.runtime.http.allow") (
          http_widenings g.network_runtime_allow c.network_runtime_allow
            (complete_http_grants g.network_runtime_allow g.network_runtime_http_allow)
            c.network_runtime_http_allow)
        ++ (widenings (codes "network.install.http.deny-removed") (
              http_deny_removals g.network_install_deny c.network_install_deny
                g.network_install_http_deny c.network_install_http_deny)
            ++ widenings (codes "network.runtime.http.deny-removed") (
                http_deny_removals g.network_runtime_deny c.network_runtime_deny
                  g.network_runtime_http_deny c.network_runtime_http_deny)))

abbrev pub local_widenings : Surface → Surface → List Widening
local_widenings g c =
    widenings (codes "credentials.install")
      (missing_from g.credentials_install c.credentials_install)
    ++ (widenings (codes "credentials.runtime")
          (missing_from g.credentials_runtime c.credentials_runtime)
        ++ (widenings (codes "ssh-agent") (ssh_agent_widenings g.ssh_agent c.ssh_agent)
            ++ (widenings (codes "storage") (missing_from g.storage_paths c.storage_paths)
                ++ (widenings (codes "skills") (missing_from g.skills_paths c.skills_paths)
                    ++ (widenings (codes "skills.write")
                          (missing_from g.skills_write_paths c.skills_write_paths)
                        ++ (widenings (codes "ports") (missing_from g.ports c.ports)
                            ++ (widenings (codes "usb") (missing_from g.usb c.usb)
                                ++ (privileged_widening g.privileged c.privileged
                                    ++ widenings (codes "services")
                                        (missing_from g.services c.services)))))))))

unfoldable pub diff_widenings : Surface → Surface → List Widening
unfolding missing_from http_widenings http_deny_removals complete_http_grants ssh_agent_widenings
diff_widenings g c = connection_widenings g c ++ (request_widenings g c ++ local_widenings g c)
