-- ===== src/Sla/Tests.antt =====
-- The choice of a policy among concrete candidates.
use support_desk.Base.{◌≤◌, ◌≡◌, refl, codes, true, some, List, [], ◌∷◌, In}
use support_desk.Base.Sort.{insert, sort_by}
use support_desk.Ticketing.Ticket.{high, web, incident, question}
use support_desk.Sla.Matcher.{
  SlaMatchTicketAttributes, SlaPolicyMatchCandidate, matches_list, matches,
  select_matching_sla_policy,
}
use support_desk.Sla.Matcher.Laws.{select_matching_sla_policy_least}

run : Unit {0}
unfolding insert sort_by matches_list matches select_matching_sla_policy
run = tt

abbrev general : SlaPolicyMatchCandidate
general = record {
  id = codes "general";
  match_channels = [];
  match_priorities = [];
  match_types = [];
  priority = 9;
}

abbrev incidents : SlaPolicyMatchCandidate
incidents = record {
  id = codes "incidents";
  match_channels = [];
  match_priorities = "URGENT" ∷ "HIGH" ∷ [];
  match_types = "INCIDENT" ∷ [];
  priority = 2;
}

abbrev outage : SlaMatchTicketAttributes
outage = record { channel = web; priority = high; type = incident }

abbrev policies : List SlaPolicyMatchCandidate
policies = general ∷ incidents ∷ []

chosen : select_matching_sla_policy policies outage ≡ some incidents
unfolding run
chosen = refl

-- A question falls to the general policy.
question_test :
    select_matching_sla_policy policies (record outage { type = question }) ≡ some general
unfolding run
question_test = refl

select_matching_sla_policy_least_example :
    In incidents policies
    × (matches outage incidents ≡ true)
    × ((d : SlaPolicyMatchCandidate) → In d policies → matches outage d ≡ true → 2 ≤ d.priority)
select_matching_sla_policy_least_example =
    select_matching_sla_policy_least policies outage incidents chosen
