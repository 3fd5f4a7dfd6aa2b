-- ===== src/Ldap/Scripts.antt =====
-- The scripts of akropolis/phases/ldap_reconcile.py, as they are sent.
use akropolis.Base.{String, ◌<>◌, Option, none, some, List, map}
use akropolis.Base.Lines.{join}

-- A row of the report: what is stored for a user, and what LDAP has for it, if anything.
pub record Row : Type 0 where
  pub source : String
  pub username : String
  pub stored : String
  pub live : Option String
  pub status : String

-- `_MARKER`
abbrev pub marker : String
marker = "AKROPOLIS_JSON:"

-- `repr` of a text is a parameter.
module _ (repr : String → String) where
  repr_or_none : Option String → String
  repr_or_none none = "None"
  repr_or_none (some s) = repr s

  repr_names : Option (List String) → String
  unfolding join
  repr_names none = "None"
  repr_names (some names) = "[" <> (join ", " (map repr names) <> "]")

  -- `_dry_run_script(source_slug, usernames)`
  unfoldable pub dry_run_script : Option String → Option (List String) → String
  unfolding repr_or_none repr_names
  dry_run_script source usernames =
      "import json\nfrom authentik.sources.ldap.models import LDAPSource, UserLDAPSourceConnection\nSOURCE_SLUG = "
      <> (repr_or_none source
          <> ("\nUSERNAMES = "
              <> (repr_names usernames
                  <> "\nrows = []\nerrors = []\nsources = LDAPSource.objects.all()\nif SOURCE_SLUG:\n    sources = sources.filter(slug=SOURCE_SLUG)\nchecked = []\nfor source in sources:\n    checked.append(source.slug)\n    try:\n        uniq_field = source.object_uniqueness_field\n        base = source.base_dn\n        if getattr(source, 'additional_user_dn', ''):\n            base = source.additional_user_dn + ',' + base\n        filt = source.user_object_filter or '(objectClass=person)'\n        if not filt.startswith('('):\n            filt = '(' + filt + ')'\n        search_filter = '(&' + filt + '(uid=*))'\n        conn = source.connection()\n        conn.search(base, search_filter, attributes=['uid', uniq_field])\n        live = {}\n        for entry in conn.entries:\n            attrs = entry.entry_attributes_as_dict\n            uids = attrs.get('uid') or []\n            uniqs = attrs.get(uniq_field) or []\n            if uids and uniqs:\n                live[str(uids[0])] = str(uniqs[0])\n    except Exception as e:\n        errors.append({'source': source.slug, 'detail': str(e)})\n        continue\n    conns = (UserLDAPSourceConnection.objects.filter(source=source)\n             .select_related('user'))\n    if USERNAMES:\n        conns = conns.filter(user__username__in=USERNAMES)\n    for lsc in conns:\n        uname = lsc.user.username\n        stored = lsc.identifier\n        live_val = live.get(uname)\n        if live_val is None:\n            status = 'NOT_FOUND_IN_LDAP'\n        elif live_val == stored:\n            status = 'SAME'\n        else:\n            status = 'DIFFERENT'\n        rows.append({'source': source.slug, 'username': uname, 'path': lsc.user.path,\n                     'active': lsc.user.is_active, 'stored': stored,\n                     'live': live_val, 'status': status})\nprint('AKROPOLIS_JSON:' + json.dumps({'rows': rows, 'errors': errors,\n                                  'sources_checked': checked}))\n")))

  repr_change : Row → String
  unfolding repr_or_none
  repr_change row =
      "("
      <> (repr row.source
          <> (", "
              <> (repr row.username
                  <> (", " <> (repr row.stored <> (", " <> (repr_or_none row.live <> ")")))))))

  -- `_apply_script(changes)`
  unfoldable pub apply_script : List Row → String
  unfolding repr_change join
  apply_script changes =
      "import json\nfrom authentik.sources.ldap.models import UserLDAPSourceConnection\nCHANGES = "
      <> ("["
          <> (join ", " (map repr_change changes) <> "]")
          <> "\nresults = []\nfor source_slug, username, old, new in CHANGES:\n    lsc = UserLDAPSourceConnection.objects.filter(\n        source__slug=source_slug, user__username=username).first()\n    if lsc is None:\n        results.append({'source': source_slug, 'username': username,\n                        'status': 'SKIPPED_NO_ROW'})\n        continue\n    if lsc.identifier != old:\n        results.append({'source': source_slug, 'username': username,\n                        'status': 'SKIPPED_CHANGED', 'expected': old,\n                        'found': lsc.identifier})\n        continue\n    lsc.identifier = new\n    lsc.save()\n    results.append({'source': source_slug, 'username': username,\n                    'status': 'UPDATED', 'old': old, 'new': new})\nprint('AKROPOLIS_JSON:' + json.dumps(results))\n")
