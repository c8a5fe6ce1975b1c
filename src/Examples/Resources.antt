-- ===== src/Examples/Resources.antt =====
-- The catalogue of `src/management/catalog.py` on one of its resources.
use pegaprox_plugin_opnsense.Prelude.{inl, inr, [], ◌≡◌, refl}
use pegaprox_plugin_opnsense.Exec.{raised}
use pegaprox_plugin_opnsense.Engine.{refusal}
use pegaprox_plugin_opnsense.Engine.Mutate.{mutate}
use pegaprox_plugin_opnsense.Catalog.Interfaces.{vips}
use pegaprox_plugin_opnsense.Catalog.Resources.{resources}
use pegaprox_plugin_opnsense.Catalog.Laws.{
  Member, SoundSpec, resources-SoundSpec, resources_unqualified,
}
use pegaprox_plugin_opnsense.Examples.{peer}
use pegaprox_plugin_opnsense.Examples.Management.{fair_env, truncated, service, rename}

listed : Member vips resources
listed = inr (inr (inr (inr (inr (inl refl)))))

resources-SoundSpec_example : SoundSpec vips
resources-SoundSpec_example = resources-SoundSpec vips listed

resources_unqualified_example : mutate fair_env truncated service vips rename [] ≡ (
  raised (refusal "ha_unqualified" "Este módulo aún no tiene escritura HA verificada." 409),
  [],
)
resources_unqualified_example =
    resources_unqualified fair_env truncated service vips peer rename [] listed refl
