-- ===== src/Surface/Tests.antt =====
-- The theorems on spec/surface.go at concrete surfaces, and runs of its functions.
use sandbox_kit_spec.Base.{◌≡◌, refl, false, [], ◌∷◌, codes, is_empty}
use sandbox_kit_spec.Surface.{Surface}
use sandbox_kit_spec.Surface.Http.{host_covers}
use sandbox_kit_spec.Surface.SshAgent.{ssh_agent_widenings}
use sandbox_kit_spec.Surface.Diff.{diff_widenings}
use sandbox_kit_spec.Surface.Diff.Within.{within, diff_widenings-within}
use sandbox_kit_spec.Surface.Diff.Unchanged.{diff_widenings_self}

abbrev nothing : Surface
nothing = record {
  network_install_allow = [];
  network_install_deny = [];
  network_runtime_allow = [];
  network_runtime_deny = [];
  network_install_http_allow = [];
  network_install_http_deny = [];
  network_runtime_http_allow = [];
  network_runtime_http_deny = [];
  credentials_install = [];
  credentials_runtime = [];
  ssh_agent = [];
  storage_paths = [];
  skills_paths = [];
  skills_write_paths = [];
  ports = [];
  usb = [];
  privileged = false;
  services = [];
}

-- A kit that may read one API.
abbrev reader : Surface
reader = record nothing { network_runtime_http_allow = codes "GET api.example.com/v1/**" ∷ [] }

abbrev writer : Surface
writer = record reader {
  network_runtime_http_allow =
      codes "GET api.example.com/v1/users" ∷ codes "POST api.example.com/v1/users" ∷ [];
}

posting_is_reported :
    diff_widenings reader writer
    ≡ record {
      category = codes "network.runtime.http.allow";
      detail = codes "POST api.example.com/v1/users";
    }
      ∷ []
unfolding diff_widenings
posting_is_reported = refl

ports_matter : host_covers (codes "host:8443") (codes "host:443") ≡ false
unfolding host_covers
ports_matter = refl

one_user_of_host :
    ssh_agent_widenings
      (codes "runtime authenticate github.com" ∷ [])
      (codes "runtime authenticate git@github.com" ∷ [])
    ≡ []
unfolding ssh_agent_widenings
one_user_of_host = refl

diff_widenings-within_example : is_empty (diff_widenings reader writer) ≡ within reader writer
diff_widenings-within_example = diff_widenings-within reader writer

diff_widenings_self_example : diff_widenings writer writer ≡ []
diff_widenings_self_example = diff_widenings_self writer
