-- ===== src/Literals.antt =====
-- The texts that the source writes out, as the numbers that stand for them.
use lite_iam.Prelude.{Text}

abbrev pub authorization_code : Text
authorization_code = 1000001

abbrev pub refresh_token : Text
refresh_token = 1000002

abbrev pub client_credentials : Text
client_credentials = 1000003

abbrev pub code : Text
code = 1000004

abbrev pub s256_method : Text
s256_method = 1000005

abbrev pub openid : Text
openid = 1000006

abbrev pub offline_access : Text
offline_access = 1000007

abbrev pub api_read : Text
api_read = 1000008

abbrev pub api_write : Text
api_write = 1000009

abbrev pub admin : Text
admin = 1000010

abbrev pub iss : Text
iss = 2000001

abbrev pub sub : Text
sub = 2000002

abbrev pub aud : Text
aud = 2000003

abbrev pub iat : Text
iat = 2000004

abbrev pub nbf : Text
nbf = 2000005

abbrev pub exp : Text
exp = 2000006

abbrev pub jti : Text
jti = 2000007

abbrev pub email : Text
email = 2000008

abbrev pub tenant_id : Text
tenant_id = 2000009

abbrev pub tenant_name : Text
tenant_name = 2000010

abbrev pub tenant_slug : Text
tenant_slug = 2000011

abbrev pub auth_stage : Text
auth_stage = 2000012

abbrev pub nonce : Text
nonce = 2000013

abbrev pub complete : Text
complete = 2000014

abbrev pub mfa_pending : Text
mfa_pending = 2000015

abbrev pub audience : Text
audience = 2000016

abbrev pub client_id : Text
client_id = 2000017

abbrev pub scope : Text
scope = 2000018

abbrev pub impersonated : Text
impersonated = 2000019

abbrev pub impersonator_id : Text
impersonator_id = 2000020

abbrev pub impersonator_email : Text
impersonator_email = 2000021
