-- ===== src/Gen/Validate/Parts.antt =====
-- internal/gen/manifest.go: `Validate` as the sum of its checks.
use sokel_plugin_sdk.Base.{trim_space, [], ◌≡◌, ◌↔◌}
use sokel_plugin_sdk.Gen.Declaration.{Manifest, all_operations}
use sokel_plugin_sdk.Gen.Report.{report_both}
use sokel_plugin_sdk.Gen.Transports.{deployment_problems}
use sokel_plugin_sdk.Gen.Operations.{operation_problems, capability_problems}
use sokel_plugin_sdk.Gen.EventDecls.{event_problems, validate_common}
use sokel_plugin_sdk.Gen.Direct.{validate_direct_call}
use sokel_plugin_sdk.Gen.Translations.{locale_problems}
use sokel_plugin_sdk.Gen.Validate.{
  Disk, doc_markdown, icon_problems, plugin_problems, transport_problems, empty_problems,
  credential_problems, codegen_problems, validate,
}

-- No part of the validation finds a problem.
pub record IsQuiet (disk : Disk) (m : Manifest) : Type 0 where
  pub plugin : plugin_problems m.plugin ≡ []
  pub icon : icon_problems disk m.path (trim_space m.plugin.icon) ≡ []
  pub transports : transport_problems m ≡ []
  pub deployment : deployment_problems m.deployment ≡ []
  pub locales : locale_problems (doc_markdown disk m) m ≡ []
  pub content : empty_problems m ≡ []
  pub operations : operation_problems [] m.operations ≡ []
  pub direct : validate_direct_call (all_operations m) m.credential ≡ []
  pub capabilities : capability_problems m.implements ≡ []
  pub events : event_problems [] m.events ≡ []
  pub common : validate_common m.events m.events_common ≡ []
  pub credential : credential_problems m.credential ≡ []
  pub codegen : codegen_problems m.codegen ≡ []

same_parts : {P : Type 0} → P ↔ P
same_parts = (λ h. h, λ h. h)

pub validate-IsQuiet : (disk : Disk) (m : Manifest) → (validate disk m ≡ []) ↔ IsQuiet disk m
unfolding validate
validate-IsQuiet disk m =
    let all = report_both same_parts (
      report_both same_parts (
        report_both same_parts (
          report_both same_parts (
            report_both same_parts (
              report_both same_parts (
                report_both same_parts (
                  report_both same_parts (
                    report_both same_parts (
                      report_both same_parts
                        (report_both same_parts (report_both same_parts same_parts))))))))))) in
    (
      λ h.
          let (a, (b, (c, (d, (e, (f, (g, (i, (j, (k, (l, (n, o)))))))))))) = all.0 h in
          record {
            plugin = a;
            icon = b;
            transports = c;
            deployment = d;
            locales = e;
            content = f;
            operations = g;
            direct = i;
            capabilities = j;
            events = k;
            common = l;
            credential = n;
            codegen = o;
          },
      λ q. all.1 (
        q.plugin,
        (
          q.icon,
          (
            q.transports,
            (
              q.deployment,
              (
                q.locales,
                (
                  q.content,
                  (
                    q.operations,
                    (q.direct, (q.capabilities, (q.events, (q.common, (q.credential, q.codegen))))),
                  ),
                ),
              ),
            ),
          ),
        ),
      ),
    )
