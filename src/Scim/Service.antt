-- ===== src/Scim/Service.antt =====
-- scim/client.go as the directory of the reconciler: `ListUsers` over the pages of `Page`, and `PatchExternalID`.
pub mod Reading
use helppi_scim_go.Prelude.{String, ℤ, pos}
use helppi_scim_go.Exec.{Result}
use helppi_scim_go.Scim.Types.{User, ListResponse}
use helppi_scim_go.Scim.Http.{Library}
use helppi_scim_go.Scim.Client.{Client, Net, Wire, page, patch_external_id}
use helppi_scim_go.Scim.Pages.{effective_size, list_users}
use helppi_scim_go.Directory.Interface.{Directory}

-- The two methods of `*scim.Client` that the reconciler calls.
abbrev pub client_directory :
    {N : Type 0}
    → Client
    → Library
    → Net N
    → (String → Result ListResponse)
    → (String → Result User)
    → Directory (Wire N)
client_directory client lib net decode_list decode_user = record {
  list_users = λ X filter size fn.
      list_users (λ n. page client lib net decode_list filter (pos n) (pos (effective_size size)))
        size fn;
  patch_external_id = patch_external_id client lib net decode_user;
}
