-- ===== src/Conformance/Criteria.antt =====
-- The cases that conformance/checks.go, lines 61 to 293, reports on.
use helppi_scim_go.Conformance.Report.{Criterion}

abbrev pub credential_accepted : Criterion
credential_accepted = record {
  id = "P1.01";
  phase = "1";
  title = "Credential is accepted";
  criterion = "§13 configuration";
}

abbrev pub list_responses : Criterion
list_responses = record {
  id = "P1.02";
  phase = "1";
  title = "Responses are SCIM ListResponses";
  criterion = "Appendix A — envelope";
}

abbrev pub stable_ids : Criterion
stable_ids = record {
  id = "P1.03";
  phase = "1";
  title = "Every record carries a stable id";
  criterion = "§05 identity model";
}

abbrev pub active_flag : Criterion
active_flag = record {
  id = "P1.04";
  phase = "1";
  title = "active is present on every record";
  criterion = "§06 lifecycle";
}

abbrev pub aliases : Criterion
aliases = record {
  id = "P1.05";
  phase = "1";
  title = "Identities are aliases, not mailboxes";
  criterion = "§05 data minimization";
}

abbrev pub usable_watermark : Criterion
usable_watermark = record {
  id = "P1.06";
  phase = "1";
  title = "meta.lastModified is usable as a watermark";
  criterion = "§08 synchronization";
}

abbrev pub honored_paging : Criterion
honored_paging = record {
  id = "P1.07";
  phase = "1";
  title = "startIndex and count are honored";
  criterion = "Appendix A — pagination";
}
